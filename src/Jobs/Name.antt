-- ===== src/Jobs/Name.antt =====
-- `buildJobName`, `sanitizeDNS1123` and `shortHash`. The strings are names of Kubernetes objects,
-- which are ASCII, so a byte is a rune. `hash` is `hashString`, the hexadecimal SHA-256.
pub mod Label
use certificate_job_operator.Prelude.{
  ℕ, zero, suc, ◌+◌, ◌-◌, ◌≤◌, Bool, true, ◌&&◌, ◌||◌, [], ◌∷◌, ◌++◌, map, Str, str, leb, ltb, eqb,
  length, length-append, take, length-take-le, All, All-append, ◌≡◌, refl, ◌≢◌, arith,
  if◌then◌else◌, Bool-cases, inl, inr,
}

abbrev pub dash : ℕ
dash = b'-'

abbrev to_lower : ℕ → ℕ
to_lower c = if leb b'A' c && leb c b'Z' then c + 32 else c

abbrev pub is_name_char : ℕ → Bool
is_name_char c = (leb b'a' c && leb c b'z') || ((leb b'0' c && leb c b'9') || eqb c dash)

-- The branches of the `switch`.
unfoldable pub clean : ℕ → ℕ
clean c = let r = to_lower c in if is_name_char r then r else dash

-- `strings.Trim(s, "-")`, from the left and from the right.
unfoldable pub trim_left : Str → Str
trim_left [] = []
trim_left (c ∷ s) = if eqb c dash then trim_left s else c ∷ s

-- A dash before nothing goes.
abbrev pub cons_trimmed : ℕ → Str → Str
cons_trimmed c [] = if eqb c dash then [] else c ∷ []
cons_trimmed c (d ∷ s) = c ∷ d ∷ s

unfoldable pub trim_right : Str → Str
trim_right [] = []
trim_right (c ∷ s) = cons_trimmed c (trim_right s)

unfoldable pub trim : Str → Str
unfolding trim_left trim_right
trim s = trim_right (trim_left s)

-- `if s == "" { return "job" }`.
abbrev pub or_job : Str → Str
or_job [] = str "job"
or_job (c ∷ s) = c ∷ s

unfoldable pub sanitize_dns_1123 : Str → Str
unfolding clean trim
sanitize_dns_1123 s = or_job (trim (map clean s))

unfoldable pub short_hash : Str → ℕ → Str
short_hash s n = if leb (length s) n then s else take n s

abbrev pub max_len : ℕ
max_len = 63

-- The part before the hash, cut to the room that is left for it.
unfoldable pub fit_base : Str → ℕ → Str
unfolding trim
fit_base base prefix_len =
    or_job (if ltb prefix_len (length base) then trim (take prefix_len base) else base)

abbrev pub at_least_one : ℕ → ℕ
at_least_one n = if ltb n 1 then 1 else n

unfoldable pub build_job_name :
    (hash : Str → Str) (cjob_name cert_name node_name run_id : Str) → Str
unfolding sanitize_dns_1123 short_hash fit_base
build_job_name hash cjob_name cert_name node_name run_id =
    let suffix =
      short_hash
        (hash (cjob_name ++ str "/" ++ cert_name ++ str "/" ++ node_name ++ str "/" ++ run_id))
        12 in
    let base =
      sanitize_dns_1123
        (cjob_name ++ str "-" ++ cert_name ++ str "-" ++ node_name ++ str "-" ++ run_id) in
    fit_base base (at_least_one (max_len - length suffix - 1)) ++ dash ∷ suffix

abbrev pub IsNameChar : ℕ → Type 0
IsNameChar c = is_name_char c ≡ true

-- The first byte, if there is one, is no dash.
abbrev pub StartsWell : Str → Type 0
StartsWell [] = Unit
StartsWell (c ∷ s) = c ≢ dash

clean-IsNameChar : (c : ℕ) → IsNameChar (clean c)
unfolding clean
clean-IsNameChar c = ground arith

map-clean : (s : Str) → All IsNameChar (map clean s)
map-clean [] = tt
map-clean (c ∷ s) = (clean-IsNameChar c, map-clean s)

trim_left-chars :
    (s : Str) → All IsNameChar s → All IsNameChar (trim_left s) × StartsWell (trim_left s)
unfolding trim_left
trim_left-chars [] h = (tt, tt)
trim_left-chars (c ∷ s) h = ground (arith, trim_left-chars s h.1)

cons_trimmed-chars :
    (c : ℕ) (s : Str) → IsNameChar c → All IsNameChar s → All IsNameChar (cons_trimmed c s)
cons_trimmed-chars c [] h k = ground arith
cons_trimmed-chars c (d ∷ s) h k = (h, k)

trim_right-chars : (s : Str) → All IsNameChar s → All IsNameChar (trim_right s)
unfolding trim_right
trim_right-chars [] h = tt
trim_right-chars (c ∷ s) h = cons_trimmed-chars c (trim_right s) h.0 (trim_right-chars s h.1)

cons_trimmed-starts : (c : ℕ) (s : Str) → c ≢ dash → StartsWell (cons_trimmed c s)
cons_trimmed-starts c [] h = ground arith
cons_trimmed-starts c (d ∷ s) h = h

trim_right-starts : (s : Str) → StartsWell s → StartsWell (trim_right s)
unfolding trim_right
trim_right-starts [] h = tt
trim_right-starts (c ∷ s) h = cons_trimmed-starts c (trim_right s) h

length-cons_trimmed : (c : ℕ) (s : Str) → length (cons_trimmed c s) ≤ suc (length s)
length-cons_trimmed c [] = ground arith
length-cons_trimmed c (d ∷ s) = omega arith

length-trim_right : (s : Str) → length (trim_right s) ≤ length s
unfolding trim_right
length-trim_right [] = omega arith
length-trim_right (c ∷ s) = omega (arith, length-cons_trimmed c (trim_right s), length-trim_right s)

length-trim_left : (s : Str) → length (trim_left s) ≤ length s
unfolding trim_left
length-trim_left [] = omega arith
length-trim_left (c ∷ s) = ground (arith, length-trim_left s)

-- A name made of name characters that does not begin with a dash.
abbrev pub IsCleanName : Str → Type 0
IsCleanName s = All IsNameChar s × StartsWell s

pub trim_lem : (s : Str) → All IsNameChar s → IsCleanName (trim s) × (length (trim s) ≤ length s)
unfolding trim
trim_lem s h =
    let (chars, starts) = trim_left-chars s h in
    (
      (trim_right-chars (trim_left s) chars, trim_right-starts (trim_left s) starts),
      omega (arith, length-trim_right (trim_left s), length-trim_left s),
    )

or_job-clean : (s : Str) → IsCleanName s → IsCleanName (or_job s) × (or_job s ≢ [])
or_job-clean [] h = (((refl, (refl, (refl, tt))), λ e. omega arith), λ e. cc)
or_job-clean (c ∷ s) h = (h, λ e. cc)

length-or_job : (s : Str) (n : ℕ) → length s ≤ n → 3 ≤ n → length (or_job s) ≤ n
length-or_job [] n h k = omega arith
length-or_job (c ∷ s) n h k = h

-- The result of `sanitizeDNS1123` is not empty, consists of lower-case letters, digits and dashes,
-- and does not begin with a dash, whatever the input.
pub sanitize_dns_1123-clean :
    (s : Str) → IsCleanName (sanitize_dns_1123 s) × (sanitize_dns_1123 s ≢ [])
unfolding sanitize_dns_1123
sanitize_dns_1123-clean s = or_job-clean _ (trim_lem (map clean s) (map-clean s)).0

pub length-short_hash : (s : Str) (n : ℕ) → length (short_hash s n) ≤ n
unfolding short_hash
length-short_hash s n = ground (arith, length-take-le n s)

take-chars : (n : ℕ) (s : Str) → All IsNameChar s → All IsNameChar (take n s)
take-chars zero s h = tt
take-chars (suc n) [] h = tt
take-chars (suc n) (c ∷ s) h = (h.0, take-chars n s h.1)

short_hash-chars : (s : Str) (n : ℕ) → All IsNameChar s → All IsNameChar (short_hash s n)
unfolding short_hash
short_hash-chars s n h = ground (arith, take-chars n s h)

pub fit_base_lem :
    (base : Str) (n : ℕ)
    → 3 ≤ n
    → IsCleanName base
    → IsCleanName (fit_base base n) × (fit_base base n ≢ []) × (length (fit_base base n) ≤ n)
unfolding fit_base
fit_base_lem base n room h = elim (Bool-cases (ltb n (length base))) [
  | inl long ↦
      let (clean_cut, shorter) = trim_lem (take n base) (take-chars n base h.0) in
      let (ok, nonempty) = or_job-clean (trim (take n base)) clean_cut in
      rw long (ok, nonempty, length-or_job _ n (omega (arith, length-take-le n base)) room)
  | inr short ↦
      let (ok, nonempty) = or_job-clean base h in
      rw short (ok, nonempty, length-or_job base n (ground arith) room)
]

pub append-starts : (s t : Str) → s ≢ [] → StartsWell s → StartsWell (s ++ t)
append-starts [] t h k = absurd (h refl)
append-starts (c ∷ s) t h k = k
