-- ===== src/Chains/Switch.antt =====
-- The switch of the active chain keeps the table coherent.
use outbox_service.Prelude.{
  ℕ, ◌<◌, ◌≡◌, refl, subst, ap, true, false, none, some, ok, ◌==◌, arith, inl, inr, Bool-cases,
  Result-cases, length, select, find_row, put_row, put_row-IsKeyed, put_row-All,
  find_row-put_row_ne, find_row-All, find_row-key, ◌∙◌, OnOk,
}
use outbox_service.Chains.Model.{ProcessingChain, Registry}
use outbox_service.Chains.Repository.{in_scope, find_active, save_chain}
use outbox_service.Chains.Activation.{
  retired_chain, activated_chain, retire_other, activate_locked, switch_chain,
}
use outbox_service.Chains.Exclusive.{
  id_of, claims, IsLifecycle, IsExclusive, IsCoherent, find_active-none, find_active-some,
  first_of_selection, activated-IsExclusive, retired-IsExclusive,
}

-- the parts of coherence that any change of a row keeps
saved :
    (r old : ProcessingChain) (db : Registry)
    → IsCoherent db
    → find_row id_of r.id db.chains ≡ some old
    → IsLifecycle r
    → IsExclusive (put_row id_of r db.chains)
    → IsCoherent (save_chain r db)
saved r old db coherent found lifecycle exclusive = record {
  keyed = put_row-IsKeyed id_of r db.chains coherent.keyed;
  below =
      let here : old.id < db.next_chain_id =
        find_row-All id_of (λ c. c.id < db.next_chain_id) r.id db.chains old coherent.below found in
      let same : old.id ≡ r.id = find_row-key id_of r.id db.chains old found in
      put_row-All id_of (λ c. c.id < db.next_chain_id) r db.chains (omega (arith, here, same))
        coherent.below;
  lifecycle = put_row-All id_of IsLifecycle r db.chains lifecycle coherent.lifecycle;
  exclusive = exclusive;
}

module _ (now : ℕ) (chain : ProcessingChain) (e s : ℕ) (db : Registry) (coherent : IsCoherent db)
    (found : find_row id_of chain.id db.chains ≡ some chain) (mine : in_scope e s chain ≡ true)
    (idle : chain.is_active ≡ false) where
  alone : find_active e s db ≡ ok none → IsCoherent (activate_locked now chain none db)
  unfolding activate_locked retire_other
  alone none_active = saved (activated_chain now chain) chain db coherent found refl (
      activated-IsExclusive now chain e s mine idle db.chains found coherent.exclusive
        (ap length (find_active-none e s db coherent none_active)))

  instead_of :
      (c : ProcessingChain)
      → find_active e s db ≡ ok (some c)
      → IsCoherent (activate_locked now chain (some c) db)
  unfolding activate_locked retire_other
  instead_of c one_active =
      let only = find_active-some e s db coherent c one_active in
      let (here, claimed) = first_of_selection (claims e s) c db.chains coherent.keyed only in
      let other : (c.id == chain.id) ≡ false = elim (Bool-cases (c.id == chain.id)) [
        | inr miss ↦ miss
        | inl hit ↦
            let same_id : c.id ≡ chain.id = ground arith in
            let again : find_row id_of chain.id db.chains ≡ some c =
              subst (λ i. find_row id_of i db.chains ≡ some c) same_id here in
            let same : chain ≡ c = cc in ground (arith, claimed, ap (λ x. x.is_active) same)
      ] in
      let r = retired_chain now c in
      let count = λ (f t : ℕ). retired-IsExclusive now c db.chains f t here in
      let exclusive : IsExclusive (put_row id_of r db.chains) =
        λ f t. omega (arith, count f t, coherent.exclusive f t) in
      let retired : IsCoherent (save_chain r db) = saved r c db coherent here refl exclusive in
      let free : length (select (claims e s) (put_row id_of r db.chains)) ≡ 0 =
        let before : length (select (claims e s) db.chains) ≡ 1 = ap length only in
        ground (arith, count e s, before, claimed) in
      let still : find_row id_of chain.id (put_row id_of r db.chains) ≡ some chain =
        find_row-put_row_ne id_of chain.id r db.chains (ground (arith, other)) ∙ found in
      rw other (
        saved (activated_chain now chain) chain (save_chain r db) retired still refl (
          activated-IsExclusive now chain e s mine idle (put_row id_of r db.chains) still exclusive
            free))

pub switch_chain-IsCoherent :
    (now : ℕ) (chain : ProcessingChain) (e s : ℕ) (db : Registry)
    → IsCoherent db
    → find_row id_of chain.id db.chains ≡ some chain
    → in_scope e s chain ≡ true
    → OnOk (λ (a : Registry × ProcessingChain). IsCoherent a.0) (switch_chain now e s chain db)
unfolding switch_chain
switch_chain-IsCoherent now chain e s db coherent found mine = elim (Bool-cases chain.is_active) [
  | inl is_on ↦ simp (is_on, switch_chain) coherent
  | inr idle ↦ elim (Result-cases (find_active e s db)) [
    | inr (x, fails) ↦ simp (idle, fails, switch_chain) tt
    | inl (none, answer) ↦
        simp (idle, answer, switch_chain) (alone now chain e s db coherent found mine idle answer)
    | inl (some c, answer) ↦
        simp (idle, answer, switch_chain)
          (instead_of now chain e s db coherent found mine idle c answer)
  ]
]
