-- ===== src/Manager/Machines.antt =====
-- The table of the state machines: each is found under its kind.
use rex_sm.Base.{
  ◌≡◌, refl, inl, inr, ◌⊎◌, true, false, List, [], length, ok, panic, natb, Bool-cases, arith,
  map_get, collect, are_distinct, value_of, collect_lem, collect-Clash,
}
use rex_sm.Kind.{Rex}
use rex_sm.Manager.Dispatch.{StateMachine, Machines, new_manager}

module _ (R : Rex) where
  -- `StateMachineManager::new` of machines with distinct kinds returns a table that finds each machine
  -- under its kind and no other; where two machines have one kind it panics.
  pub new_manager-distinct :
      (sms : List (StateMachine R))
      → ((are_distinct R.kind_dec (λ sm. sm.kind) sms ≡ true)
          × ((machines : Machines R) × (new_manager R sms ≡ ok machines)
              × ((k : R.Kind)
                  → map_get R.kind_dec machines k ≡ value_of R.kind_dec (λ sm. sm.kind) k sms)))
        ⊎ ((are_distinct R.kind_dec (λ sm. sm.kind) sms ≡ false) × (new_manager R sms ≡ panic))
  unfolding new_manager map_get
  new_manager-distinct sms = elim (Bool-cases (are_distinct R.kind_dec (λ sm. sm.kind) sms)) [
    | inl d ↦
        let (size, found) = collect_lem R.kind_dec (λ sm. sm.kind) [] sms (λ k h. refl) d in
        let same : natb (length sms) (length (collect R.kind_dec (λ sm. sm.kind) [] sms)) ≡ true =
          ground (arith, size) in
        inl (d, (collect R.kind_dec (λ sm. sm.kind) [] sms, rw same, found))
    | inr d ↦
        let less = collect-Clash R.kind_dec (λ sm. sm.kind) [] sms (inr d) in
        let other : natb (length sms) (length (collect R.kind_dec (λ sm. sm.kind) [] sms)) ≡ false =
          ground (arith, less) in
        inr (d, rw other)
  ]
