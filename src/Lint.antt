-- ===== src/Lint.antt =====
-- web/eslint.config.js: which files the linter checks, and with which rule sets. Whether a pattern
-- matches a path is ESLint's, and is the argument `matches`.
use ar_csent.Prelude.{Bool, not, ◌&&◌, ℕ, List, [], ◌∷◌, all}
use ar_csent.Text.{Text, codes}

pub data RuleSet : Type 0 where
  js_recommended tseslint_recommended react_hooks_recommended react_refresh_vite : RuleSet

pub record Config : Type 0 where
  pub files : List Text
  pub extends : List RuleSet
  pub ecma_version : ℕ
  pub globals : Text

abbrev pub global_ignores : List Text
global_ignores = codes "dist" ∷ []

abbrev pub config : Config
config = record {
  files = codes "**/*.{ts,tsx}" ∷ [];
  extends =
      js_recommended ∷ tseslint_recommended ∷ react_hooks_recommended ∷ react_refresh_vite ∷ [];
  ecma_version = 2020;
  globals = codes "browser";
}

-- A file is checked by these rules if one of the patterns matches it and it is not ignored.
unfoldable pub is_linted : (Text → Text → Bool) → Text → Bool
is_linted matches path =
    not (all (λ pattern. not (matches pattern path)) config.files)
    && all (λ pattern. not (matches pattern path)) global_ignores
