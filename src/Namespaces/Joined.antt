-- ===== src/Namespaces/Joined.antt =====
-- About a list of names that is joined with commas (`parseWatchNamespaces`).
use certificate_job_operator.Prelude.{
  ℕ, true, false, some, List, [], ◌∷◌, ◌++◌, map, Str, Map, keys, insert, ◌==◌, ==_iff, contains,
  Distinct, ◌≡◌, ◌≢◌, refl, sym, ap, ◌∙◌, All, All-append, arith,
}
use mathlib.Core.List.{append-nil, append_assoc}
use certificate_job_operator.Workflow.Acyclic.Setup.{contains-insert}
use certificate_job_operator.Namespaces.{split_comma, add_namespaces, parse_watch_namespaces}
use certificate_job_operator.Namespaces.Trimmed.{IsVisible, trim_space-visible}

-- `strings.Join(names, ",")`.
abbrev pub join_comma : List Str → Str
join_comma [] = []
join_comma (name ∷ []) = name
join_comma (name ∷ other ∷ names) = name ++ 44 ∷ join_comma (other ∷ names)

-- A name of visible bytes without a comma.
abbrev pub IsNameByte : ℕ → Type 0
IsNameByte b = IsVisible b × (b ≢ 44)

abbrev pub IsName : Str → Type 0
IsName name = (name ≢ []) × All IsNameByte name

split_comma-name : (name : Str) → All IsNameByte name → split_comma name ≡ name ∷ []
unfolding split_comma
split_comma-name [] h = refl
split_comma-name (b ∷ s) (h, hs) = ground (arith, split_comma-name s hs)

split_comma-append :
    (name rest : Str)
    → All IsNameByte name
    → split_comma (name ++ 44 ∷ rest) ≡ name ∷ split_comma rest
unfolding split_comma
split_comma-append [] rest h = refl
split_comma-append (b ∷ s) rest (h, hs) = ground (arith, split_comma-append s rest hs)

split_comma-join :
    (name : Str) (names : List Str)
    → All IsName (name ∷ names)
    → split_comma (join_comma (name ∷ names)) ≡ name ∷ names
split_comma-join name [] (h, hs) = split_comma-name name h.1
split_comma-join name (other ∷ names) (h, hs) =
    split_comma-append name (join_comma (other ∷ names)) h.1
    ∙ ap (λ l. name ∷ l) (split_comma-join other names hs)

name-IsVisible : (name : Str) → All IsNameByte name → All IsVisible name
name-IsVisible [] h = tt
name-IsVisible (b ∷ s) (h, hs) = (h.0, name-IsVisible s hs)

join_comma-IsVisible : (names : List Str) → All IsName names → All IsVisible (join_comma names)
join_comma-IsVisible [] h = tt
join_comma-IsVisible (name ∷ []) (h, hs) = name-IsVisible name h.1
join_comma-IsVisible (name ∷ other ∷ names) (h, hs) =
    All-append IsVisible name (44 ∷ join_comma (other ∷ names)) (name-IsVisible name h.1)
      ((omega arith, omega arith), join_comma-IsVisible (other ∷ names) hs)

module _ {Config : Type 0} (config : Config) where
  insert-fresh :
      (k : Str) (m : Map Config)
      → contains (keys m) k ≡ false
      → insert k config m ≡ m ++ (k, config) ∷ []
  unfolding insert contains
  insert-fresh k [] h = refl
  insert-fresh k (entry ∷ m) h = ground (arith, insert-fresh k m)

  -- The entries for some names.
  abbrev pub entries_of : List Str → Map Config
  entries_of = map (λ name. (name, config))

  keys-entries_of : (names : List Str) → keys (entries_of names) ≡ names
  keys-entries_of [] = refl
  keys-entries_of (name ∷ names) = ap (λ l. name ∷ l) (keys-entries_of names)

  add_namespaces-names :
      (names : List Str) (m : Map Config)
      → All IsName names
      → Distinct names
      → ((k : Str) → contains names k ≡ true → contains (keys m) k ≡ false)
      → add_namespaces config names m ≡ m ++ entries_of names
  unfolding add_namespaces contains
  add_namespaces-names [] m h d fresh = sym (append-nil m)
  add_namespaces-names (name ∷ names) m (h, hs) d fresh =
      let trimmed = trim_space-visible name (name-IsVisible name h.1) in
      let named : (name == []) ≡ false = ground (arith, ==_iff name []) in
      let new = insert-fresh name m (fresh name (ground (arith, ==_iff name name))) in
      let rest =
        add_namespaces-names names (insert name config m) hs d.1
          (λ k at. ground (arith, fresh k, contains-insert name k config m, ==_iff name k)) in
      rw (trimmed, named)
        (rest
          ∙ ap (λ x. x ++ entries_of names) new
          ∙ append_assoc m ((name, config) ∷ []) (entries_of names))

  join_comma-named :
      (name : Str) (names : List Str) → IsName name → (join_comma (name ∷ names) == []) ≡ false
  unfolding ◌==◌
  join_comma-named [] names h = absurd (h.0 refl)
  join_comma-named (b ∷ name) [] h = refl
  join_comma-named (b ∷ name) (other ∷ names) h = refl

  -- A list of names, not empty and without repetition, of printable ASCII bytes other than space and
  -- comma: joined with commas, `parseWatchNamespaces` reads it back, in the order of the list, with
  -- the zero configuration for each name.
  pub parse_watch_namespaces-join :
      (names : List Str)
      → names ≢ []
      → All IsName names
      → Distinct names
      → parse_watch_namespaces config (join_comma names) ≡ some (entries_of names)
  unfolding parse_watch_namespaces
  parse_watch_namespaces-join [] some_names h d = absurd (some_names refl)
  parse_watch_namespaces-join (name ∷ names) some_names h d =
      let all = name ∷ names in
      let trimmed = trim_space-visible (join_comma all) (join_comma-IsVisible all h) in
      let named = join_comma-named name names h.0 in
      let written = add_namespaces-names all [] h d (λ k at. unfold contains in refl) in
      rw (trimmed, named, split_comma-join name names h, written) refl
