-- ===== src/Ingest/Targets.antt =====
-- cmd/mathsearch/main.go: `expand` and `expandHome`. The file system is a parameter, and so is
-- `filepath.Join`.
use go_mathsearch.Base.{
  Bool, false, ◌||◌, List, [], ◌∷◌, ◌++◌, Option, none, some, ◌==◌, nat_eq, if◌then◌else◌,
}
use go_mathsearch.Base.Sorting.{sort}
use go_mathsearch.Base.Text.{Text, codes, text_eq}
use go_mathsearch.Auth.RateLimit.{has_prefix}
use go_mathsearch.Server.Replies.{Entry}

-- A file of the corpus as `os.ReadFile` and `json.Unmarshal` leave it.
pub data File : Type 0 where
  unreadable : File
  invalid : File
  entries : List Entry → File

-- `os.UserHomeDir`, `filepath.Join`, `filepath.Glob`, whether `os.Stat` finds a directory, and the
-- contents of a file; `none` is an error.
pub record FileSystem : Type 0 where
  pub home : Option Text
  pub join_path : Text → Text → Text
  pub glob : Text → Option (List Text)
  pub is_dir : Text → Option Bool
  pub contents : Text → File

-- `strings.ContainsAny(t, "*?[")`
unfoldable pub has_meta : Text → Bool
has_meta [] = false
has_meta (c ∷ s) = c == b'*' || (c == b'?' || (c == b'[' || has_meta s))

-- `strings.TrimPrefix(p, "~")` of what begins so.
abbrev pub behind_tilde : Text → Text
behind_tilde [] = []
behind_tilde (c ∷ s) = s

module _ (F : FileSystem) where
  -- `expandHome`
  unfoldable pub expand_home : Text → Text
  unfolding has_prefix
  expand_home p =
      if p == codes "~" || has_prefix p (codes "~/")
      then (elim F.home [ none ↦ p | some home ↦ F.join_path home (behind_tilde p) ])
      else p

  -- One turn of the loop of `expand`.
  unfoldable pub expand_target : Text → Option (List Text)
  unfolding has_meta
  expand_target t = if has_meta t then F.glob t else (elim (F.is_dir t) [
    | none ↦ none
    | some dir ↦ if dir then F.glob (F.join_path t (codes "*.json")) else some (t ∷ [])
  ])

  unfoldable pub expand_all : List Text → Option (List Text)
  unfolding expand_home expand_target
  expand_all [] = some []
  expand_all (t ∷ ts) =
      let rest = expand_all ts in
      elim (expand_target (expand_home t)) [
        | none ↦ none
        | some paths ↦ elim rest [ none ↦ none | some more ↦ some (paths ++ more) ]
      ]

  -- `expand`
  unfoldable pub expand : List Text → Option (List Text)
  unfolding expand_all
  expand targets = elim (expand_all targets) [ none ↦ none | some paths ↦ some (sort paths) ]
