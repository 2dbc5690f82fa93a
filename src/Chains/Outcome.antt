-- ===== src/Chains/Outcome.antt =====
-- What an activation leaves: the chain is the active one of its scope, and no other scope has changed.
use outbox_service.Prelude.{
  ℕ, ◌≡◌, refl, sym, ap, ◌∙◌, true, false, ◌||◌, not, Option, none, some, List, ok, err, ◌==◌,
  arith, inl, inr, Bool-cases, Result-cases, select, find_row, put_row, find_row-put_row_ne,
  find_row-put_row_self, OnOk, OnOk-eq,
}
use outbox_service.Cardinality.Model.{CardinalityService}
use outbox_service.Chains.Model.{
  ProcessingChain, SchemaDefinition, Registry, Tools, configuration_scope,
}
use outbox_service.Chains.Repository.{in_scope, find_active, scalar_one_or_none}
use outbox_service.Chains.Activation.{
  retired_chain, activated_chain, retire_other, activate_locked, switch_chain, check_chain,
}
use outbox_service.Chains.Exclusive.{
  id_of, claims, IsCoherent, find_active-claims, find_active-some, first_of_selection,
}
use outbox_service.Chains.Selections.{select_only, select-put_row_out}
use outbox_service.Chains.Switch.{switch_chain-IsCoherent}

-- the chain is the active one of the scope, and the answers for other scopes are as before
abbrev pub IsSwitched : ℕ → ℕ → ProcessingChain → Registry → Registry × ProcessingChain → Type 0
IsSwitched e s chain db (db', c) =
    (find_active e s db' ≡ ok (some c))
    × (c.id ≡ chain.id)
    × ((f t : ℕ) → in_scope f t chain ≡ false → find_active f t db' ≡ find_active f t db)

-- a coherent table finds a claiming row
found_active :
    (e s : ℕ) (c : ProcessingChain) (db : Registry)
    → IsCoherent db
    → find_row id_of c.id db.chains ≡ some c
    → claims e s c ≡ true
    → find_active e s db ≡ ok (some c)
unfolding scalar_one_or_none
found_active e s c db coherent found claimed =
    rw
      (
        find_active-claims e s db coherent.lifecycle,
        select_only id_of (claims e s) c.id c db.chains found claimed (coherent.exclusive e s),
      )
      refl

-- a change of a row that no query of the scope finds
unchanged :
    (f t : ℕ) (r old : ProcessingChain) (cs : List ProcessingChain)
    → find_row id_of r.id cs ≡ some old
    → in_scope f t old ≡ false
    → in_scope f t r ≡ false
    → select (claims f t) (put_row id_of r cs) ≡ select (claims f t) cs
unchanged f t r old cs found before after =
    select-put_row_out id_of (claims f t) r old cs found (ground (arith, before))
      (ground (arith, after))

module _ (now : ℕ) (chain : ProcessingChain) (e s : ℕ) (db : Registry) (coherent : IsCoherent db)
    (found : find_row id_of chain.id db.chains ≡ some chain)
    (mine : in_scope e s chain ≡ true) where
  -- the table after the retirement
  retired_rows :
      (cur : Option ProcessingChain)
      → find_active e s db ≡ ok cur
      → let db' = retire_other now chain cur db in
        (find_row id_of chain.id db'.chains ≡ some chain)
        × ((f t : ℕ)
            → in_scope f t chain ≡ false
            → select (claims f t) db'.chains ≡ select (claims f t) db.chains)
  unfolding retire_other
  retired_rows none answer = (found, λ f t h. refl)
  retired_rows (some c) answer =
      let only = find_active-some e s db coherent c answer in
      let (here, claimed) = first_of_selection (claims e s) c db.chains coherent.keyed only in
      let r = retired_chain now c in
      elim (Bool-cases (c.id == chain.id)) [
        | inl same ↦ rw same (found, λ f t h. refl)
        | inr other ↦ rw other (
          find_row-put_row_ne id_of chain.id r db.chains (ground (arith, other)) ∙ found,
          λ f t away.
              let outside : in_scope f t c ≡ false = ground (arith, claimed, mine, away) in
              unchanged f t r c db.chains here outside outside,
        )
      ]

  idle-IsSwitched :
      (cur : Option ProcessingChain)
      → chain.is_active ≡ false
      → find_active e s db ≡ ok cur
      → IsCoherent (activate_locked now chain cur db)
      → IsSwitched e s chain db (activate_locked now chain cur db, activated_chain now chain)
  unfolding activate_locked
  idle-IsSwitched cur idle answer after =
      let db1 = retire_other now chain cur db in
      let r = activated_chain now chain in
      let (still, others) = retired_rows cur answer in
      (
        found_active e s r (activate_locked now chain cur db) after
            (find_row-put_row_self id_of r chain db1.chains still) (ground (arith, mine)),
        refl,
        λ f t away.
            find_active-claims f t (activate_locked now chain cur db) after.lifecycle
            ∙ ap scalar_one_or_none
                (unchanged f t r chain db1.chains still away away ∙ others f t away)
            ∙ sym (find_active-claims f t db coherent.lifecycle),
      )

  pub switch_chain-IsSwitched : OnOk (IsSwitched e s chain db) (switch_chain now e s chain db)
  unfolding switch_chain
  switch_chain-IsSwitched = elim (Bool-cases chain.is_active) [
    | inl is_on ↦
        simp (is_on, switch_chain)
          (
            found_active e s chain db coherent found (ground (arith, mine, is_on)),
            refl,
            λ f t h. refl,
          )
    | inr idle ↦ elim (Result-cases (find_active e s db)) [
      | inr (x, fails) ↦ simp (idle, fails, switch_chain) tt
      | inl (cur, answer) ↦
          let done : switch_chain now e s chain db
              ≡ ok (activate_locked now chain cur db, activated_chain now chain) =
            simp (idle, answer, switch_chain) refl in
          let after =
            OnOk-eq (λ (a : Registry × ProcessingChain). IsCoherent a.0)
              (switch_chain now e s chain db)
              (switch_chain-IsCoherent now chain e s db coherent found mine) done in
          rw done (idle-IsSwitched cur idle answer after)
    ]
  ]

-- the tests let only chains of the scope through
pub check_chain-in_scope :
    (tools : Tools) (cardinality : CardinalityService) (e s : ℕ) (schema : SchemaDefinition)
    (chain : ProcessingChain) (db : Registry) {u : Unit {0}}
    → check_chain tools cardinality e s schema chain db ≡ ok u
    → in_scope e s chain ≡ true
unfolding check_chain
check_chain-in_scope tools cardinality e s schema chain db passed =
    elim (Bool-cases (not (chain.event_type_id == e) || not (chain.schema_definition_id == s))) [
      | inl bad ↦ absurd (ok_err (rw bad at passed))
      | inr good ↦ ground (arith, good)
    ]
  where
    ok_err : {u : Unit {0}} → err configuration_scope ≡ ok u → ⊥
    ok_err h = cc
