-- ===== src/Timeout/Ledger.antt =====
-- src/timeout.rs: `TimeoutLedger`. The hash map `ids` is a function, the ordered maps are lists of
-- entries by ascending instant.
use mathlib.Core.Option
use rex_sm.Base.{
  ℕ, ◌-◌, Bool, true, false, Option, none, some, List, [], ◌∷◌, push, if◌then◌else◌, natb, ltb, eqb,
  set_insert, set_remove, contains, tree_modify, tree_entry, tree_get,
}

pub record Ledger {ℓ} (Key T : Type ℓ) : Type ℓ where
  pub timers : List (ℕ × List Key)
  pub ids : Key → Option ℕ
  pub retainer : List (ℕ × List (Key × T))

-- the log lines of `lint_instant`
pub data Lint : Type 0 where
  in_the_past short_timeout setting_timeout : Lint

-- `SHORT_TIMEOUT`, in milliseconds
abbrev pub short_limit : ℕ
short_limit = 10_000

-- `instant - now` is zero where `instant` is earlier.
unfoldable pub lint_instant : ℕ → ℕ → List Lint
lint_instant now instant =
    let duration = instant - now in
    let level = if ltb short_limit duration then setting_timeout else short_timeout in
    if ltb instant now then in_the_past ∷ level ∷ [] else level ∷ []

abbrev pub or_default {ℓ} : {A : Type ℓ} → Option (List A) → List A
or_default none = []
or_default (some xs) = xs

module _ {ℓ} {Key T : Type ℓ} where
  unfoldable pub new : Ledger Key T
  new = record { timers = []; ids = λ _. none; retainer = [] }

  unfoldable pub retain : Ledger Key T → Key → ℕ → T → Ledger Key T
  retain l i instant item = record l {
    retainer = tree_entry instant (λ o. push (or_default o) (i, item)) l.retainer;
  }

module _ {ℓ} {Key : Type ℓ} (dec : Discrete Key) where
  -- `HashMap::insert` and `HashMap::remove`
  unfoldable pub with_key : Key → Option ℕ → (Key → Option ℕ) → Key → Option ℕ
  with_key i o m j = if eqb dec i j then o else m j

  -- `and_modify(|set| set.insert(id)).or_default().insert(id)`
  abbrev pub insert_in : Key → Option (List Key) → List Key
  insert_in i o = set_insert dec i (or_default (Option.map (set_insert dec i) o))

  -- The entry of the id at its old instant goes, if that differs from the new one.
  unfoldable pub remove_old : Key → ℕ → Option ℕ → List (ℕ × List Key) → List (ℕ × List Key)
  remove_old i instant none timers = timers
  remove_old i instant (some old) timers =
      if natb old instant then timers else tree_modify old (set_remove dec i) timers

module _ {ℓ} {Key T : Type ℓ} (dec : Discrete Key) where
  unfoldable pub set_timeout : Ledger Key T → Key → ℕ → Ledger Key T
  unfolding with_key remove_old
  set_timeout l i instant = record l {
    ids = with_key dec i (some instant) l.ids;
    timers = tree_entry instant (insert_in dec i) (remove_old dec i instant (l.ids i) l.timers);
  }

  unfoldable pub cancel_timeout : Ledger Key T → Key → Ledger Key T
  unfolding with_key
  cancel_timeout l i = elim (l.ids i) [
    | none ↦ l
    | some instant ↦ record l {
      ids = with_key dec i none l.ids;
      timers = tree_modify instant (set_remove dec i) l.timers;
    }
  ]

  -- whether `cancel_timeout` logs that there is no such entry: `matches!(removed_id, None | Some(false))`
  unfoldable pub cancel_warns : Ledger Key T → Key → Bool
  cancel_warns l i = elim (l.ids i) [
    | none ↦ false
    | some instant ↦ elim (tree_get instant l.timers) [
      | none ↦ true
      | some set ↦ if contains dec i set then false else true
    ]
  ]
