-- ===== src/FaceScan/Checked.antt =====
-- What a scan is that engine/app/facescan.py accepts.
use factech.Base.{
  ℕ, suc, ◌*◌, ◌≤◌, ◌<◌, min, max, ℤ, pos, negsuc, Bool, true, false, not, ◌&&◌, Option, none, some,
  List, [], ◌∷◌, String, length, size, leb, ltb, nat_beq, All, All-imp, Bool-cases, inl, inr, ◌≡◌,
  refl, ap, ◌∙◌, subst, arith, if◌then◌else◌,
}
use factech.Contracts.{ok, err, ok-injective, then-ok}
use factech.FaceScan.{
  Value, Values, no_more, item, Frame, max_bytes, max_b64_chars, malformed, get, frame_bytes,
  starts_jpeg, checked_jpeg, jpeg_dimensions, within_limits, check_dimensions, int_ltb, follows,
  checked_ts, is_pose, is_table, is_version, checked_frame, checked_frames, count, checked_array,
  validate, validate_unpacked, parse_facescan_bytes, parse_decoded, parse_facescan,
}

-- A size that may be decoded, where a size was found.
abbrev pub IsSized : Option (ℕ × ℕ) → Type 0
IsSized none = Unit {0}
IsSized (some (width, height)) =
    (width ≤ 1280)
    × (height ≤ 1280)
    × (width * height ≤ 1000000)
    × (0 < width)
    × (0 < height)
    × (width ≤ 3 * height)
    × (height ≤ 3 * width)

abbrev pub IsFrame : Frame → Type 0
IsFrame f = (starts_jpeg f.jpeg ≡ true) × IsSized (jpeg_dimensions f.jpeg)

-- Each frame is before all that follow it.
abbrev pub IsAscending : List Frame → Type 0
IsAscending [] = Unit {0}
IsAscending (f ∷ fs) = All (λ (g : Frame). int_ltb f.ts g.ts ≡ true) fs × IsAscending fs

limits :
    (w h area : ℕ)
    → (leb (max w h) 1280
        && leb area 1000000
        && not (nat_beq (min w h) 0)
        && leb (max w h) (3 * min w h))
      ≡ true
    → (w ≤ 1280) × (h ≤ 1280) × (area ≤ 1000000) × (0 < w) × (0 < h) × (w ≤ 3 * h) × (h ≤ 3 * w)
limits w h area e = (
  ground (arith, e),
  ground (arith, e),
  ground (arith, e),
  ground (arith, e),
  ground (arith, e),
  ground (arith, e),
  ground (arith, e),
)

within-IsSized :
    (width height : ℕ) → within_limits (width, height) ≡ true → IsSized (some (width, height))
unfolding within_limits
within-IsSized width height h = limits width height (width * height) h

check_dimensions-IsSized : (dims : Option (ℕ × ℕ)) → check_dimensions dims ≡ ok tt → IsSized dims
check_dimensions-IsSized none h = tt
check_dimensions-IsSized (some (width, height)) h =
    elim (Bool-cases (within_limits (width, height))) [
      | inl e ↦ within-IsSized width height e
      | inr e ↦ let h' = rw e at h in absurd (cc)
    ]

int_ltb_trans : (a b c : ℤ) → int_ltb a b ≡ true → int_ltb b c ≡ true → int_ltb a c ≡ true
int_ltb_trans (pos a) (pos b) (pos c) h k = ground (arith, h, k)
int_ltb_trans (pos a) (pos b) (negsuc c) h k = absurd (cc)
int_ltb_trans (pos a) (negsuc b) c h k = absurd (cc)
int_ltb_trans (negsuc a) (pos b) (pos c) h k = refl
int_ltb_trans (negsuc a) (pos b) (negsuc c) h k = absurd (cc)
int_ltb_trans (negsuc a) (negsuc b) (pos c) h k = refl
int_ltb_trans (negsuc a) (negsuc b) (negsuc c) h k = ground (arith, h, k)

checked_jpeg-ok :
    (bytes : Option (List ℕ)) (jpeg : List ℕ)
    → checked_jpeg bytes ≡ ok jpeg
    → starts_jpeg jpeg ≡ true
checked_jpeg-ok none jpeg h = absurd (cc)
checked_jpeg-ok (some b) jpeg h = elim (Bool-cases (starts_jpeg b)) [
  | inl e ↦ subst (λ j. starts_jpeg j ≡ true) (ok-injective b jpeg (rw e at h)) e
  | inr e ↦ let h' = rw e at h in absurd (cc)
]

checked_ts-ok :
    (prev : Option ℤ) (v : Value) (ts : ℤ) → checked_ts prev v ≡ ok ts → follows prev ts ≡ true
checked_ts-ok prev (Value.int n) ts h = elim (Bool-cases (follows prev n)) [
  | inl e ↦ subst (λ j. follows prev j ≡ true) (ok-injective n ts (rw e at h)) e
  | inr e ↦ let h' = rw e at h in absurd (cc)
]
checked_ts-ok prev Value.nil ts h = absurd (cc)
checked_ts-ok prev (Value.boolean b) ts h = absurd (cc)
checked_ts-ok prev Value.other ts h = absurd (cc)
checked_ts-ok prev (Value.text b) ts h = absurd (cc)
checked_ts-ok prev (Value.bytes b) ts h = absurd (cc)
checked_ts-ok prev (Value.array vs) ts h = absurd (cc)
checked_ts-ok prev (Value.table fs) ts h = absurd (cc)

-- A frame of the scan, and that it comes after the one before.
checked_frame-ok :
    (prev : Option ℤ) (v : Value) (f : Frame)
    → checked_frame prev v ≡ ok f
    → IsFrame f × (follows prev f.ts ≡ true)
checked_frame-ok prev (Value.table frame) f h =
    let (jpeg, e, h1) = then-ok (checked_jpeg (frame_bytes (get "jpeg_bytes" frame))) _ f h in
    let (_, g, h2) = then-ok (check_dimensions (jpeg_dimensions jpeg)) _ f h1 in
    let (ts, k, h3) = then-ok (checked_ts prev (get "ts_ms" frame)) _ f h2 in
    made jpeg ts (is_pose (get "pose" frame)) h3
      (
        checked_jpeg-ok (frame_bytes (get "jpeg_bytes" frame)) jpeg e,
        check_dimensions-IsSized (jpeg_dimensions jpeg) g,
      )
      (checked_ts-ok prev (get "ts_ms" frame) ts k)
  where
    made :
        (jpeg : List ℕ) (ts : ℤ) (b : Bool)
        → (if b then ok (record { jpeg = jpeg; ts = ts }) else err malformed) ≡ ok f
        → (starts_jpeg jpeg ≡ true) × IsSized (jpeg_dimensions jpeg)
        → follows prev ts ≡ true
        → IsFrame f × (follows prev f.ts ≡ true)
    made jpeg ts true h x y =
        subst (λ (g : Frame). IsFrame g × (follows prev g.ts ≡ true))
          (ok-injective (record { jpeg = jpeg; ts = ts }) f h) (x, y)
    made jpeg ts false h x y = absurd (cc)
checked_frame-ok prev Value.nil f h = absurd (cc)
checked_frame-ok prev (Value.boolean b) f h = absurd (cc)
checked_frame-ok prev (Value.int n) f h = absurd (cc)
checked_frame-ok prev Value.other f h = absurd (cc)
checked_frame-ok prev (Value.text b) f h = absurd (cc)
checked_frame-ok prev (Value.bytes b) f h = absurd (cc)
checked_frame-ok prev (Value.array vs) f h = absurd (cc)

follows_trans :
    (prev : Option ℤ) (a b : ℤ) → follows prev a ≡ true → int_ltb a b ≡ true → follows prev b ≡ true
follows_trans none a b h k = refl
follows_trans (some p) a b h k = int_ltb_trans p a b h k

-- All frames come after a time.
abbrev IsAfter : Option ℤ → List Frame → Type 0
IsAfter prev fs = All (λ (g : Frame). follows prev g.ts ≡ true) fs

checked_frames-ok :
    (prev : Option ℤ) (vs : Values) (fs : List Frame)
    → checked_frames prev vs ≡ ok fs
    → (length fs ≡ count vs) × All IsFrame fs × IsAscending fs × IsAfter prev fs
unfolding checked_frames
checked_frames-ok prev no_more fs h =
    subst (λ gs. (length gs ≡ 0) × All IsFrame gs × IsAscending gs × IsAfter prev gs)
      (ok-injective [] fs h) (refl, tt, tt, tt)
checked_frames-ok prev (item v vs) fs h =
    let (f, e, h1) = then-ok (checked_frame prev v) _ fs h in
    let (rest, g, h2) = then-ok (checked_frames (some f.ts) vs) _ fs h1 in
    let (n, frames, ascending, after) = checked_frames-ok (some f.ts) vs rest g in
    let (frame, follow) = checked_frame-ok prev v f e in
    subst (λ gs. (length gs ≡ suc (count vs)) × All IsFrame gs × IsAscending gs × IsAfter prev gs)
      (ok-injective (f ∷ rest) fs h2)
      (
        ap suc n,
        (frame, frames),
        (after, ascending),
        (follow, All-imp rest (λ g k. follows_trans prev f.ts g.ts follow k) after),
      )

checked_array-ok :
    (v : Value) (fs : List Frame)
    → checked_array v ≡ ok fs
    → (length fs ≡ 12) × All IsFrame fs × IsAscending fs
checked_array-ok (Value.array vs) fs h = elim (Bool-cases (nat_beq (count vs) 12)) [
  | inl e ↦
      let (n, frames, ascending, after) = checked_frames-ok none vs fs (rw e at h) in
      (n ∙ ground (arith, e), frames, ascending)
  | inr e ↦ let h' = rw e at h in absurd (cc)
]
checked_array-ok Value.nil fs h = absurd (cc)
checked_array-ok (Value.boolean b) fs h = absurd (cc)
checked_array-ok (Value.int n) fs h = absurd (cc)
checked_array-ok Value.other fs h = absurd (cc)
checked_array-ok (Value.text b) fs h = absurd (cc)
checked_array-ok (Value.bytes b) fs h = absurd (cc)
checked_array-ok (Value.table b) fs h = absurd (cc)

-- What an accepted scan is.
abbrev pub IsScan : List Frame → Type 0
IsScan fs = (length fs ≡ 12) × All IsFrame fs × IsAscending fs

validate-IsScan : (v : Value) (fs : List Frame) → validate v ≡ ok fs → IsScan fs
unfolding validate
validate-IsScan (Value.table scan) fs h =
    elim (Bool-cases (
      is_version (get "version" scan)
      && is_table (get "device" scan)
      && is_table (get "challenge" scan))) [
        | inl e ↦ checked_array-ok (get "frames" scan) fs (rw e at h)
        | inr e ↦ let h' = rw e at h in absurd (cc)
      ]
validate-IsScan Value.nil fs h = absurd (cc)
validate-IsScan (Value.boolean b) fs h = absurd (cc)
validate-IsScan (Value.int n) fs h = absurd (cc)
validate-IsScan Value.other fs h = absurd (cc)
validate-IsScan (Value.text b) fs h = absurd (cc)
validate-IsScan (Value.bytes b) fs h = absurd (cc)
validate-IsScan (Value.array b) fs h = absurd (cc)

parse_decoded-IsScan :
    (unpack : List ℕ → Option Value) (decoded : Option (List ℕ)) (fs : List Frame)
    → parse_decoded unpack decoded ≡ ok fs
    → (raw : List ℕ) × (decoded ≡ some raw) × (length raw ≤ 358400) × IsScan fs
unfolding parse_facescan_bytes
parse_decoded-IsScan unpack none fs h = absurd (cc)
parse_decoded-IsScan unpack (some raw) fs h = elim (Bool-cases (ltb max_bytes (length raw))) [
  | inl e ↦ let h' = rw e at h in absurd (cc)
  | inr e ↦ (raw, refl, ground (arith, e), unpacked (unpack raw) (rw e at h))
]
  where
    unpacked : (v : Option Value) → validate_unpacked v ≡ ok fs → IsScan fs
    unpacked none k = absurd (cc)
    unpacked (some v) k = validate-IsScan v fs k

-- A scan that is accepted is of at most 477868 characters and 358400 bytes, and has twelve frames,
-- each later than all before it. Each is a JPEG, and where its header holds a size, that is of at most
-- 1280 pixels on an edge and a million in all, and no edge is empty or over three times the other.
pub parse_facescan_sound :
    (decode : String → Option (List ℕ)) (unpack : List ℕ → Option Value) (facescan_b64 : String)
    (fs : List Frame)
    → parse_facescan decode unpack facescan_b64 ≡ ok fs
    → (size facescan_b64 ≤ 477868)
      × ((raw : List ℕ) × (decode facescan_b64 ≡ some raw) × (length raw ≤ 358400) × IsScan fs)
unfolding parse_facescan
parse_facescan_sound decode unpack facescan_b64 fs h =
    elim (Bool-cases (ltb max_b64_chars (size facescan_b64))) [
      | inl e ↦ let h' = rw e at h in absurd (cc)
      | inr e ↦
          (ground (arith, e), parse_decoded-IsScan unpack (decode facescan_b64) fs (rw e at h))
    ]
