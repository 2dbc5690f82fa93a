-- ===== src/Chains/Exclusive.antt =====
-- At most one chain of a scope is active: what one change of the table of chains does to that.
use outbox_service.Prelude.{
  ℕ, ◌+◌, ◌≤◌, ◌<◌, ◌≡◌, refl, sym, subst, ap, Bool, true, false, ◌&&◌, none, some, List, [], ◌∷◌,
  ok, arith, inl, inr, Bool-cases, All, All-map, All-select, select-All, length, select, find_row,
  put_row, IsKeyed, find_row-IsKeyed,
}
use outbox_service.Execution.Model.{ChainStatus}
use outbox_service.Chains.Model.{ProcessingChain, Registry}
use outbox_service.Chains.Repository.{is_chain_status, scalar_one_or_none, in_scope, find_active}
use outbox_service.Chains.Activation.{retired_chain, activated_chain}
use outbox_service.Chains.Selections.{length-select-put_row, select_same, one_if}

abbrev pub id_of : ProcessingChain → ℕ
id_of c = c.id

-- the rows of the partial unique index
abbrev pub claims : ℕ → ℕ → ProcessingChain → Bool
claims e s c = in_scope e s c && c.is_active

abbrev pub IsLifecycle : ProcessingChain → Type 0
IsLifecycle c = c.is_active ≡ is_chain_status c.status ChainStatus.active

abbrev pub IsExclusive : List ProcessingChain → Type 0
IsExclusive cs = (e s : ℕ) → length (select (claims e s) cs) ≤ 1

-- Ids are keys that the sequence has given out, a chain is marked active just where its status is
-- ACTIVE, and at most one chain of a scope is.
pub record IsCoherent (db : Registry) : Type 0 where
  pub keyed : IsKeyed id_of db.chains
  pub below : All (λ c. c.id < db.next_chain_id) db.chains
  pub lifecycle : All IsLifecycle db.chains
  pub exclusive : IsExclusive db.chains

scalar_none : (cs : List ProcessingChain) → scalar_one_or_none cs ≡ ok none → cs ≡ []
unfolding scalar_one_or_none
scalar_none [] h = refl
scalar_none (c ∷ []) h = cc
scalar_none (c ∷ d ∷ cs) h = cc

scalar_some :
    (c : ProcessingChain) (cs : List ProcessingChain)
    → scalar_one_or_none cs ≡ ok (some c)
    → cs ≡ c ∷ []
unfolding scalar_one_or_none
scalar_some c [] h = cc
scalar_some c (d ∷ []) h = cc
scalar_some c (d ∷ e ∷ cs) h = cc

-- the query of `find_active` finds the rows of the index
pub find_active-claims :
    (e s : ℕ) (db : Registry)
    → All IsLifecycle db.chains
    → find_active e s db ≡ scalar_one_or_none (select (claims e s) db.chains)
unfolding find_active
find_active-claims e s db lifecycle = ap scalar_one_or_none (
    sym (
      select_same (claims e s)
        (λ c. in_scope e s c && (c.is_active && is_chain_status c.status ChainStatus.active))
        db.chains (All-map (λ c h. ground (arith, h)) db.chains lifecycle)))

module _ (e s : ℕ) (db : Registry) (coherent : IsCoherent db) where
  pub find_active-none : find_active e s db ≡ ok none → select (claims e s) db.chains ≡ []
  find_active-none h =
      scalar_none (select (claims e s) db.chains)
        (rw (find_active-claims e s db coherent.lifecycle) at h)

  pub find_active-some :
      (c : ProcessingChain)
      → find_active e s db ≡ ok (some c)
      → select (claims e s) db.chains ≡ c ∷ []
  find_active-some c h =
      scalar_some c (select (claims e s) db.chains)
        (rw (find_active-claims e s db coherent.lifecycle) at h)

-- a row of a selection is a row of the table
pub first_of_selection :
    (q : ProcessingChain → Bool) (c : ProcessingChain) (cs : List ProcessingChain)
    → IsKeyed id_of cs
    → select q cs ≡ c ∷ []
    → (find_row id_of c.id cs ≡ some c) × (q c ≡ true)
first_of_selection q c cs keyed h = (
  (subst (All (λ x. find_row id_of x.id cs ≡ some x)) h
      (All-select (λ x. find_row id_of x.id cs ≡ some x) q cs (find_row-IsKeyed id_of cs keyed))).0,
  (subst (All (λ x. q x ≡ true)) h (select-All q cs)).0,
)

module _ (now : ℕ) (chain : ProcessingChain) (e s : ℕ) (mine : in_scope e s chain ≡ true)
    (idle : chain.is_active ≡ false) where
  pub activated-IsExclusive :
      (cs : List ProcessingChain)
      → find_row id_of chain.id cs ≡ some chain
      → IsExclusive cs
      → length (select (claims e s) cs) ≡ 0
      → IsExclusive (put_row id_of (activated_chain now chain) cs)
  activated-IsExclusive cs found exclusive free f t =
      let q = claims f t in
      let r = activated_chain now chain in
      let counted = length-select-put_row id_of q r chain cs found in
      let before = exclusive f t in
      elim (Bool-cases (in_scope f t chain)) [
        | inl hit ↦
            let same_type : e ≡ f = ground (arith, mine, hit) in
            let same_schema : s ≡ t = ground (arith, mine, hit) in
            let none_here : length (select q cs) ≡ 0 = rw (same_type, same_schema) at free in
            ground (arith, counted, none_here)
        | inr miss ↦
            let not_mine : one_if id_of q r ≡ 0 = rw miss refl in
            omega (arith, counted, not_mine, before)
      ]

pub retired-IsExclusive :
    (now : ℕ) (c : ProcessingChain) (cs : List ProcessingChain) (f t : ℕ)
    → find_row id_of c.id cs ≡ some c
    → length (select (claims f t) (put_row id_of (retired_chain now c) cs))
        + one_if id_of (claims f t) c
      ≡ length (select (claims f t) cs)
retired-IsExclusive now c cs f t found =
    let r = retired_chain now c in
    let gone : one_if id_of (claims f t) r ≡ 0 = ground arith in
    omega (arith, length-select-put_row id_of (claims f t) r c cs found, gone)
