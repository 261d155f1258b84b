-- ===== src/Namespaces.antt =====
-- The namespaces that the operator watches (cmd/main.go): `watchNamespaceCacheConfig` and
-- `parseWatchNamespaces`, with the `strings.TrimSpace` and `strings.Split` of Go.
pub mod Trimmed
pub mod Parsed
pub mod Joined
use certificate_job_operator.Prelude.{
  ℕ, zero, suc, Bool, true, false, ◌&&◌, Option, none, some, List, [], ◌∷◌, ◌++◌, Str, Map, str,
  eqb, ◌==◌, insert, length, if◌then◌else◌,
}

-- `unicode.IsSpace`: the UTF-8 encodings of the space runes.
abbrev pub spaces : List Str
spaces =
    (9 ∷ [])
    ∷ (10 ∷ [])
    ∷ (11 ∷ [])
    ∷ (12 ∷ [])
    ∷ (13 ∷ [])
    ∷ (32 ∷ [])
    ∷ (194 ∷ 133 ∷ [])
    ∷ (194 ∷ 160 ∷ [])
    ∷ (225 ∷ 154 ∷ 128 ∷ [])
    ∷ (226 ∷ 128 ∷ 128 ∷ [])
    ∷ (226 ∷ 128 ∷ 129 ∷ [])
    ∷ (226 ∷ 128 ∷ 130 ∷ [])
    ∷ (226 ∷ 128 ∷ 131 ∷ [])
    ∷ (226 ∷ 128 ∷ 132 ∷ [])
    ∷ (226 ∷ 128 ∷ 133 ∷ [])
    ∷ (226 ∷ 128 ∷ 134 ∷ [])
    ∷ (226 ∷ 128 ∷ 135 ∷ [])
    ∷ (226 ∷ 128 ∷ 136 ∷ [])
    ∷ (226 ∷ 128 ∷ 137 ∷ [])
    ∷ (226 ∷ 128 ∷ 138 ∷ [])
    ∷ (226 ∷ 128 ∷ 168 ∷ [])
    ∷ (226 ∷ 128 ∷ 169 ∷ [])
    ∷ (226 ∷ 128 ∷ 175 ∷ [])
    ∷ (226 ∷ 129 ∷ 159 ∷ [])
    ∷ (227 ∷ 128 ∷ 128 ∷ [])
    ∷ []

abbrev pub reverse : Str → Str
reverse [] = []
reverse (b ∷ s) = reverse s ++ b ∷ []

abbrev pub reverse_each : List Str → List Str
reverse_each [] = []
reverse_each (s ∷ ss) = reverse s ∷ reverse_each ss

unfoldable pub has_prefix : Str → Str → Bool
has_prefix [] s = true
has_prefix (p ∷ ps) [] = false
has_prefix (p ∷ ps) (b ∷ s) = eqb p b && has_prefix ps s

-- The bytes that the first of the runes at the front takes, 0 for none of them.
unfoldable pub rune_width : List Str → Str → ℕ
unfolding has_prefix
rune_width [] s = 0
rune_width (rune ∷ runes) s = if has_prefix rune s then length rune else rune_width runes s

-- `skip` bytes are left of a rune that is cut off.
unfoldable pub trim_front : List Str → (skip : ℕ) → Str → Str
unfolding rune_width
trim_front runes skip [] = []
trim_front runes (suc skip) (b ∷ s) = trim_front runes skip s
trim_front runes zero (b ∷ s) = elim (rune_width runes (b ∷ s)) [
  | zero ↦ b ∷ s
  | suc skip ↦ trim_front runes skip s
]

-- `strings.TrimSpace`.
unfoldable pub trim_space : Str → Str
unfolding trim_front
trim_space s = reverse (trim_front (reverse_each spaces) 0 (reverse (trim_front spaces 0 s)))

-- A byte before the first piece.
abbrev pub push : ℕ → List Str → List Str
push b [] = (b ∷ []) ∷ []
push b (piece ∷ pieces) = (b ∷ piece) ∷ pieces

-- `strings.Split(s, ",")`.
unfoldable pub split_comma : Str → List Str
split_comma [] = [] ∷ []
split_comma (b ∷ s) = let rest = split_comma s in if eqb b 44 then [] ∷ rest else push b rest

-- `config` is `cache.Config{}`, of controller-runtime.
module _ {Config : Type 0} (config : Config) where
  -- The loop over the pieces.
  unfoldable pub add_namespaces : List Str → Map Config → Map Config
  unfolding trim_space insert ◌==◌
  add_namespaces [] result = result
  add_namespaces (namespace ∷ namespaces) result =
      let ns = trim_space namespace in
      add_namespaces namespaces (if ns == [] then result else insert ns config result)

  -- A nil map is `none`.
  unfoldable pub parse_watch_namespaces : Str → Option (Map Config)
  unfolding add_namespaces split_comma trim_space ◌==◌
  parse_watch_namespaces raw =
      let watch_namespaces = trim_space raw in
      if watch_namespaces == []
      then none
      else elim (add_namespaces (split_comma watch_namespaces) []) [
        | [] ↦ none
        | entry ∷ result ↦ some (entry ∷ result)
      ]

  -- A map of the first variable that is not nil has an entry.
  unfoldable pub watch_namespace_cache_config : (getenv : Str → Str) → Option (Map Config)
  unfolding parse_watch_namespaces trim_space ◌==◌
  watch_namespace_cache_config getenv =
      elim (parse_watch_namespaces (getenv (str "WATCH_NAMESPACE"))) [
        | some watch_config ↦ some watch_config
        | none ↦
            let pod_namespace = trim_space (getenv (str "POD_NAMESPACE")) in
            if pod_namespace == [] then none else some ((pod_namespace, config) ∷ [])
      ]
