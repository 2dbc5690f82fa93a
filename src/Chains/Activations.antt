-- ===== src/Chains/Activations.antt =====
-- Whatever holds of the switch of a tested chain holds of `activate_chain`.
use outbox_service.Prelude.{
  ℕ, ◌≡◌, sym, subst, ◌∙◌, false, ◌&&◌, some, ok, or_raise, or_raise-some, ◌==◌, arith, find_row,
  find_row-key, OnOk, OnOk-bind, OnOk-eq, OnOk-mono,
}
use outbox_service.Cardinality.Model.{CardinalityService}
use outbox_service.Chains.Model.{
  ProcessingChain, SchemaDefinition, Registry, Tools, chain_not_found,
}
use outbox_service.Chains.Repository.{find_active, find_chain}
use outbox_service.Chains.Service.{find_schema, lock_event_type, validate_schema_scope}
use outbox_service.Chains.Activation.{switch_chain, check_chain, activate_chain}
use outbox_service.Chains.Exclusive.{id_of, IsCoherent}
use outbox_service.Chains.Switch.{switch_chain-IsCoherent}
use outbox_service.Chains.Outcome.{IsSwitched, switch_chain-IsSwitched, check_chain-in_scope}

module _ (tools : Tools) (cardinality : CardinalityService) (now e s id : ℕ) (db : Registry) where
  -- what holds of the switch of every chain that passes the tests holds of the activation
  pub activate_chain_elim {κ} :
      (P : Registry × ProcessingChain → Type κ)
      → ((schema : SchemaDefinition) (chain : ProcessingChain)
          → validate_schema_scope (find_schema s db) e ≡ ok schema
          → find_chain id db ≡ some chain
          → check_chain tools cardinality e s schema chain db ≡ ok tt
          → OnOk P (switch_chain now e s chain db))
      → OnOk P (activate_chain tools cardinality now e s id db)
  unfolding activate_chain
  activate_chain_elim P h = OnOk-bind P (lock_event_type e db) _ (λ _ _.
      OnOk-bind P (validate_schema_scope (find_schema s db) e) _ (λ schema valid.
        OnOk-bind P (or_raise (find_chain id db) chain_not_found) _ (λ chain found.
          OnOk-bind P (check_chain tools cardinality e s schema chain db) _ (λ _ passed.
            h schema chain valid (or_raise-some (find_chain id db) chain_not_found found) passed))))

  pub activate_chain-IsCoherent :
      IsCoherent db
      → OnOk
          (λ (a : Registry × ProcessingChain). IsCoherent a.0)
          (activate_chain tools cardinality now e s id db)
  activate_chain-IsCoherent coherent =
      activate_chain_elim (λ (a : Registry × ProcessingChain). IsCoherent a.0)
        (λ schema chain _ found passed.
          let same = find_row-key id_of id db.chains chain found in
          switch_chain-IsCoherent now chain e s db coherent
            (subst (λ i. find_row id_of i db.chains ≡ some chain) (sym same) found)
            (check_chain-in_scope tools cardinality e s schema chain db passed))

-- If the table is coherent, an activation that returns a chain returns the one with the id asked for,
-- it is then the active one of its scope, and every other scope has the active chain that it had.
pub activate_chain-IsActivated :
    (tools : Tools) (cardinality : CardinalityService) (now e s id : ℕ) (db db' : Registry)
    (c : ProcessingChain)
    → IsCoherent db
    → activate_chain tools cardinality now e s id db ≡ ok (db', c)
    → (find_active e s db' ≡ ok (some c))
      × (c.id ≡ id)
      × ((f t : ℕ) → (f == e && t == s) ≡ false → find_active f t db' ≡ find_active f t db)
activate_chain-IsActivated tools cardinality now e s id db db' c coherent returned =
    OnOk-eq Activated (activate_chain tools cardinality now e s id db)
      (activate_chain_elim tools cardinality now e s id db Activated (λ schema chain _ found passed.
        let same = find_row-key id_of id db.chains chain found in
        let mine = check_chain-in_scope tools cardinality e s schema chain db passed in
        let there = subst (λ i. find_row id_of i db.chains ≡ some chain) (sym same) found in
        OnOk-mono (IsSwitched e s chain db) Activated (switch_chain now e s chain db)
          (λ (a, b) (active, kept, others).
            (active, kept ∙ same, λ f t away. others f t (ground (arith, mine, away))))
          (switch_chain-IsSwitched now chain e s db coherent there mine)))
      returned
  where
    Activated : Registry × ProcessingChain → Type 0
    Activated (a, b) =
        (find_active e s a ≡ ok (some b))
        × (b.id ≡ id)
        × ((f t : ℕ) → (f == e && t == s) ≡ false → find_active f t a ≡ find_active f t db)
