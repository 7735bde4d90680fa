-- ===== src/Flush/Placed.antt =====
-- Where in the two files of a flush the points of a metric are.
use mathlib.Core.Path.{subst}
use tstorage.Base.{ℕ, ◌+◌, ◌≡◌, refl, sym, ap, ◌∙◌, Bool, true, false, if◌then◌else◌, append_assoc}
use tstorage.Base.{List, [], ◌∷◌, ◌++◌, some, length, All, All-append, IsOrdered, arith, append-nil}
use tstorage.Rows.{DataPoint}
use tstorage.Encoding.{Encoder, new_encoder, encode_point, encode_points, flush}
use tstorage.MemoryMetric.{MemoryMetric, encode_list, encode_all_points}
use tstorage.MemoryMetric.Valid.{IsValid}
use tstorage.MemoryMetric.{encode_merged}
use tstorage.Words.{IsByte}
use tstorage.Encoding.Decoder.RoundTrip.{encode_points-Holds, Holds-Remains, new_stream-Holds}
use tstorage.MemoryMetric.Encode.{merged, length-merged, encode_merged_lem}
use tstorage.Base.{Bool-cases, inl, inr}
use tstorage.MemoryPartition.{same_name, Metrics}
use tstorage.MemoryPartition.Valid.{same_name_refl, same_name-eq, AllValid}
use tstorage.DiskPartition.{DiskMetric, find_metric}
use tstorage.Flush.{
  Entries, Files, encode_some, disk_metric, set_entry, flush_encoded, flush_metric, flush_loop,
}

set_entry-same :
    (name : List ℕ) (v : DiskMetric) (es : Entries)
    → find_metric name (set_entry name v es) ≡ some v
unfolding set_entry find_metric
set_entry-same name v [] = rw (same_name_refl name) refl
set_entry-same name v ((k, m) ∷ es) = elim (Bool-cases (same_name k name)) [
  | inl e ↦ rw (e, e) refl
  | inr e ↦ rw (e, e) (set_entry-same name v es)
]

set_entry-other :
    (name n : List ℕ) (v : DiskMetric) (es : Entries)
    → same_name name n ≡ false
    → find_metric n (set_entry name v es) ≡ find_metric n es
unfolding set_entry find_metric
set_entry-other name n v [] d = rw d refl
set_entry-other name n v ((k, m) ∷ es) d = elim (Bool-cases (same_name k name)) [
  | inl e ↦
      let other : same_name k n ≡ false = ap (λ x. same_name x n) (same_name-eq k name e) ∙ d in
      rw (e, other) refl
  | inr e ↦ rw e (ap (λ r. if same_name k n then some m else r) (set_entry-other name n v es d))
]

encode_some-points :
    (e : Encoder) (ps : List DataPoint) → encode_list encode_some e ps ≡ some (encode_points e ps)
unfolding encode_list encode_points
encode_some-points e [] = refl
encode_some-points e (p ∷ ps) = encode_some-points (encode_point e p) ps

flush_lem :
    (write : List ℕ → Bool) (e : Encoder)
    → ((xs : List ℕ) → write xs ≡ true)
    → flush write e ≡ some (e.buf.stream, new_encoder)
unfolding flush
flush_lem write e ok = rw (ok e.buf.stream) refl

-- The bytes of a stream that the encoder made are bytes.
stream-IsByte : (ps : List DataPoint) → All IsByte (encode_points new_encoder ps).buf.stream
stream-IsByte ps =
    let held =
      encode_points-Holds new_encoder ps (record { leading = refl; trailing = refl })
        new_stream-Holds in
    let (more, left) = Holds-Remains [] tt held in
    subst (All IsByte) (append-nil (encode_points new_encoder ps).buf.stream) left.bytes

-- The points of a metric in the order in which they are encoded.
abbrev pub sorted_points : (List DataPoint → List DataPoint) → MemoryMetric → List DataPoint
sorted_points sort m = merged (sort m.out_of_order_points) m.points

-- The metric's entry tells where in the file its points start and how many they are.
pub record IsPlaced (sort : List DataPoint → List DataPoint) (m : MemoryMetric) (f : Files)
    : Type 0 where
  pub entry : DiskMetric
  pub before : List ℕ
  pub after : List ℕ
  pub found : find_metric m.name f.entries ≡ some entry
  pub place :
      f.written ≡ before ++ ((encode_points new_encoder (sorted_points sort m)).buf.stream ++ after)
  pub offset : entry.offset ≡ length before
  pub count : entry.num_data_points ≡ length (sorted_points sort m)
  pub bytes : All IsByte after

module _ (sort : List DataPoint → List DataPoint) (write : List ℕ → Bool)
    (ok : (xs : List ℕ) → write xs ≡ true) where
  abbrev after_metric : MemoryMetric → Files → Files
  after_metric m f = record {
    written = f.written ++ (encode_points new_encoder (sorted_points sort m)).buf.stream;
    encoder = new_encoder;
    entries =
        set_entry m.name
          (disk_metric (record m { out_of_order_points = sort m.out_of_order_points })
            (length f.written))
          f.entries;
  }

  flush_encoded_lem :
      (m : MemoryMetric) (f : Files) (e : Encoder)
      → flush_encoded sort write m f (some e)
        ≡ some (record {
          written = f.written ++ e.buf.stream;
          encoder = new_encoder;
          entries = set_entry m.name (disk_metric m (length f.written)) f.entries;
        })
  unfolding flush_encoded
  flush_encoded_lem m f e = rw (flush_encoded, flush_lem write e ok) refl

  flush_metric_lem :
      (m : MemoryMetric) (f : Files)
      → f.encoder ≡ new_encoder
      → flush_metric sort write m f ≡ some (after_metric m f)
  unfolding flush_metric encode_all_points
  flush_metric_lem m f e =
      let m' = record m { out_of_order_points = sort m.out_of_order_points } in
      ap (flush_encoded sort write m' f) (
        ap (λ x. encode_merged encode_some x (sort m.out_of_order_points) m.points) e
        ∙ encode_merged_lem encode_some new_encoder (sort m.out_of_order_points) m.points
        ∙ encode_some-points new_encoder (sorted_points sort m))
      ∙ flush_encoded_lem m' f (encode_points new_encoder (sorted_points sort m))

-- No later metric has the name of an earlier one.
abbrev pub IsNamed : List ℕ × MemoryMetric → List ℕ × MemoryMetric → Type 0
IsNamed (k, m) (k', m') = same_name m'.name m.name ≡ false

-- What the loop over `ms` makes of the files `f`: it appends bytes, leaves the entries of other
-- names, and places each metric.
pub record IsFlushed (sort : List DataPoint → List DataPoint) (ms : Metrics) (f f' : Files)
    : Type 0 where
  pub more : List ℕ
  pub appended : f'.written ≡ f.written ++ more
  pub bytes : All IsByte more
  pub others :
      (n : List ℕ)
      → All (λ e. same_name e.1.name n ≡ false) ms
      → find_metric n f'.entries ≡ find_metric n f.entries
  pub placed : All (λ e. IsPlaced sort e.1 f') ms

module _ (sort : List DataPoint → List DataPoint) (write : List ℕ → Bool)
    (ok : (xs : List ℕ) → write xs ≡ true) where
  counted :
      (m : MemoryMetric)
      → IsValid m
      → m.size + length (sort m.out_of_order_points) ≡ length (sorted_points sort m)
  counted m v = omega (arith, v.size, length-merged (sort m.out_of_order_points) m.points)

  -- The first metric of the loop, and the rest.
  first-IsPlaced :
      (m : MemoryMetric) (ms : Metrics) (f f' : Files)
      → IsValid m
      → All (λ e. same_name e.1.name m.name ≡ false) ms
      → IsFlushed sort ms (after_metric sort write ok m f) f'
      → IsPlaced sort m f'
  first-IsPlaced m ms f f' v names rest = record {
    entry =
        disk_metric (record m { out_of_order_points = sort m.out_of_order_points })
          (length f.written);
    before = f.written;
    after = rest.more;
    found = rest.others m.name names ∙ set_entry-same m.name _ f.entries;
    place =
        rest.appended
        ∙ append_assoc f.written (encode_points new_encoder (sorted_points sort m)).buf.stream
            rest.more;
    offset = refl;
    count = counted m v;
    bytes = rest.bytes;
  }

  pub flush_loop_lem :
      (ms : Metrics) (f : Files)
      → f.encoder ≡ new_encoder
      → AllValid ms
      → IsOrdered IsNamed ms
      → IsFlushed sort ms f (flush_loop sort write ms f)
  unfolding flush_loop
  flush_loop_lem [] f e v names = record {
    more = [];
    appended = sym (append-nil f.written);
    bytes = tt;
    others = λ n h. refl;
    placed = tt;
  }
  flush_loop_lem ((k, m) ∷ ms) f e (v, vs) (name, names) =
      let f₁ = after_metric sort write ok m f in
      let rest = flush_loop_lem ms f₁ refl vs names in
      rw (flush_loop, flush_metric_lem sort write ok m f e)
        (record {
          more = (encode_points new_encoder (sorted_points sort m)).buf.stream ++ rest.more;
          appended =
              rest.appended
              ∙ append_assoc f.written (encode_points new_encoder (sorted_points sort m)).buf.stream
                  rest.more;
          bytes =
              All-append IsByte (encode_points new_encoder (sorted_points sort m)).buf.stream
                rest.more (stream-IsByte (sorted_points sort m)) rest.bytes;
          others = λ n h. rest.others n h.1 ∙ set_entry-other m.name n _ f.entries h.0;
          placed = (first-IsPlaced m ms f (flush_loop sort write ms f₁) v name rest, rest.placed);
        })
