-- ===== src/Jobs/Name/Label.antt =====
-- The name of a Job as a label (`buildJobName`).
use certificate_job_operator.Prelude.{
  ℕ, zero, suc, ◌-◌, ◌≤◌, Bool, true, ◌&&◌, ◌||◌, [], ◌∷◌, ◌++◌, Str, str, leb, length,
  length-append, take, All, All-append, ◌≡◌, refl, ◌≢◌, ap, subst, sym, arith,
}
use certificate_job_operator.Jobs.Name.{
  dash, max_len, IsNameChar, StartsWell, short_hash, fit_base, at_least_one, sanitize_dns_1123,
  sanitize_dns_1123-clean, fit_base_lem, append-starts, build_job_name,
}

abbrev is_hex_digit : ℕ → Bool
is_hex_digit c = (leb b'0' c && leb c b'9') || (leb b'a' c && leb c b'f')

-- A hexadecimal SHA-256.
abbrev pub IsDigest : Str → Type 0
IsDigest s = (length s ≡ 64) × All (λ c. is_hex_digit c ≡ true) s

-- The last byte, if there is one, is no dash.
abbrev pub EndsWell : Str → Type 0
EndsWell [] = Unit
EndsWell (c ∷ []) = c ≢ dash
EndsWell (c ∷ d ∷ s) = EndsWell (d ∷ s)

-- A label as DNS-1123 has it.
pub record IsLabel (name : Str) : Type 0 where
  pub full : name ≢ []
  pub short : length name ≤ 63
  pub chars : All IsNameChar name
  pub starts : StartsWell name
  pub ends : EndsWell name

append-ends : (s : Str) (c : ℕ) (t : Str) → EndsWell (c ∷ t) → EndsWell (s ++ c ∷ t)
append-ends [] c t h = h
append-ends (a ∷ []) c t h = h
append-ends (a ∷ b ∷ s) c t h = append-ends (b ∷ s) c t h

all_hex-ends : (s : Str) → All (λ d. is_hex_digit d ≡ true) s → EndsWell s
all_hex-ends [] h = tt
all_hex-ends (c ∷ []) h = ground arith
all_hex-ends (c ∷ d ∷ s) h = all_hex-ends (d ∷ s) h.1

all_hex-chars : (s : Str) → All (λ d. is_hex_digit d ≡ true) s → All IsNameChar s
all_hex-chars [] h = tt
all_hex-chars (c ∷ s) h = (ground arith, all_hex-chars s h.1)

take-hex :
    (n : ℕ) (s : Str)
    → All (λ d. is_hex_digit d ≡ true) s
    → All (λ d. is_hex_digit d ≡ true) (take n s)
take-hex zero s h = tt
take-hex (suc n) [] h = tt
take-hex (suc n) (c ∷ s) h = (h.0, take-hex n s h.1)

length-take : (n : ℕ) (s : Str) → n ≤ length s → length (take n s) ≡ n
length-take zero s h = refl
length-take (suc n) [] h = omega arith
length-take (suc n) (c ∷ s) h = omega (arith, length-take n s)

short_hash-take : (s : Str) → length s ≡ 64 → short_hash s 12 ≡ take 12 s
unfolding short_hash
short_hash-take s h = ground arith

-- A name, a dash, and a digest cut to twelve digits.
joined-IsLabel :
    (base suffix : Str)
    → base ≢ []
    → All IsNameChar base
    → StartsWell base
    → length base ≤ 50
    → length suffix ≡ 12
    → All (λ d. is_hex_digit d ≡ true) suffix
    → IsLabel (base ++ dash ∷ suffix)
joined-IsLabel base [] full chars starts short twelve hex = absurd (omega arith)
joined-IsLabel base (d ∷ suffix) full chars starts short twelve hex = record {
  full = λ e. omega (arith, ap (λ l. length l) e, length-append base (dash ∷ d ∷ suffix));
  short = omega (arith, length-append base (dash ∷ d ∷ suffix));
  chars =
      All-append IsNameChar base (dash ∷ d ∷ suffix) chars (refl, all_hex-chars (d ∷ suffix) hex);
  starts = append-starts base (dash ∷ d ∷ suffix) full starts;
  ends = append-ends base dash (d ∷ suffix) (all_hex-ends (d ∷ suffix) hex);
}

-- Where `hashString` returns the 64 hexadecimal digits of a SHA-256, the name of a Job is a valid
-- DNS-1123 label, whatever the names it is made of: not empty, of at most 63 bytes, of lower-case
-- letters, digits and dashes, with no dash at the front or at the end. It is a part that is not
-- empty, a dash, and the first twelve digits of the hash of the four names joined by slashes.
pub build_job_name-IsLabel :
    (hash : Str → Str) (cjob_name cert_name node_name run_id : Str)
    → ((s : Str) → IsDigest (hash s))
    → let name = build_job_name hash cjob_name cert_name node_name run_id in
      let digest =
        hash (cjob_name ++ str "/" ++ cert_name ++ str "/" ++ node_name ++ str "/" ++ run_id) in
      IsLabel name × ((base : Str) × (base ≢ []) × (name ≡ base ++ dash ∷ take 12 digest))
unfolding build_job_name
build_job_name-IsLabel hash cjob_name cert_name node_name run_id digests =
    let digest =
      hash (cjob_name ++ str "/" ++ cert_name ++ str "/" ++ node_name ++ str "/" ++ run_id) in
    let suffix = take 12 digest in
    let (long, hex) =
      digests (cjob_name ++ str "/" ++ cert_name ++ str "/" ++ node_name ++ str "/" ++ run_id) in
    let cut = short_hash-take digest long in
    let twelve : length suffix ≡ 12 = length-take 12 digest (omega arith) in
    let words = cjob_name ++ str "-" ++ cert_name ++ str "-" ++ node_name ++ str "-" ++ run_id in
    let (ok, full, short) =
      fit_base_lem (sanitize_dns_1123 words) 50 (omega arith) (sanitize_dns_1123-clean words).0 in
    let base = fit_base (sanitize_dns_1123 words) 50 in
    let room : at_least_one (max_len - length suffix - 1) ≡ 50 = ground arith in
    let name : build_job_name hash cjob_name cert_name node_name run_id ≡ base ++ dash ∷ suffix =
      rw (cut, room) refl in
    (
      subst IsLabel (sym name)
          (joined-IsLabel base suffix full ok.0 ok.1 short twelve (take-hex 12 digest hex)),
      (base, full, name),
    )
