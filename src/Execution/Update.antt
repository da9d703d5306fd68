-- ===== src/Execution/Update.antt =====
-- One call of `setStatus` of packages/teraslice/lib/cluster/storage/execution.js.
use teraslice.Base.{
  ℕ, ◌≡◌, ◌⊎◌, inl, inr, refl, true, Option, some, String, arith, Result, ok, err, is_ok,
  if◌then◌else◌, ◌===◌, map_ok, false, ◌∙◌, ◌≤◌, ◌↔◌, ◌<◌, subst, sym, ap,
}
use teraslice.Execution.Status.{Status, is_valid_status}
use teraslice.Execution.Record.{Execution, MetaData}
use teraslice.Execution.Backend.{Backend, patched}
use teraslice.Execution.Store.{
  Failure, done, caught, check_update, verify_status_update, set_status, get_status,
}
use teraslice.Execution.Phases.{phase, check_update_iff, is_valid_iff}

pub Result-cases {ℓ κ} :
    {E : Type κ} {A : Type ℓ} (r : Result E A) → ((a : A) × (r ≡ ok a)) ⊎ ((e : E) × (r ≡ err e))
Result-cases (ok a) = inl (a, refl)
Result-cases (err e) = inr (e, refl)

pub ok-injective {ℓ κ} :
    {E : Type κ} {A : Type ℓ} {x y : A} → ◌≡◌ {A = Result E A} (ok x) (ok y) → x ≡ y
ok-injective h = cc

pub is_ok-ok {ℓ κ} :
    {E : Type κ} {A : Type ℓ} (r : Result E A) → is_ok r ≡ true → (a : A) × (r ≡ ok a)
is_ok-ok (ok a) h = (a, refl)
is_ok-ok (err e) h = cc

module _ (b : Backend) where
  open b use {Docs, get, update, get-update}

  -- What an update that went through says of the stored document.
  pub record Updated (d d' : Docs) (now : ℕ) (id : String) (t : Status) (m : MetaData)
      : Type 0 where
    pub execution : Execution
    pub found : get d id ≡ ok execution
    pub valid : is_valid_status t ≡ true
    pub allowed : is_ok (check_update execution.status t) ≡ true
    pub written : update d id (record { status = some t; meta = m; updated = now }) ≡ ok d'

  verify_of_status :
      (d : Docs) (id : String) (t : Status) (s : Option Status)
      → is_valid_status t ≡ true
      → get_status b d id ≡ ok s
      → verify_status_update b d id (some t) ≡ check_update s t
  unfolding verify_status_update
  verify_of_status d id t s valid h = rw valid (rw h refl)

  verify_lem :
      (d : Docs) (id : String) (t : Status) {r : Option Status}
      → verify_status_update b d id (some t) ≡ ok r
      → (e : Execution) × (get d id ≡ ok e)
        × (is_valid_status t ≡ true)
        × (is_ok (check_update e.status t) ≡ true)
  unfolding verify_status_update
  verify_lem d id t h = elim (Result-cases (get d id)) [
    | inl (e, k) ↦ (e, k, ground arith, ground arith)
    | inr (e, k) ↦ absurd (ground arith)
  ]

  verify_ok :
      (d : Docs) (id : String) (s t : Status) (e : Execution) (r : Option Status)
      → (id === "") ≡ false
      → get d id ≡ ok e
      → e.status ≡ some s
      → is_valid_status t ≡ true
      → check_update (some s) t ≡ ok r
      → verify_status_update b d id (some t) ≡ ok r
  unfolding get_status
  verify_ok d id s t e r named found has valid k =
      verify_of_status d id t (some s) valid (rw (named, found, has) refl) ∙ k

  pub set_status_cases :
      (d : Docs) (now : ℕ) (id : String) (t : Status) (m : MetaData)
      → let r = set_status b d now id t m in
        ((r.0 ≡ d) × ((f : Failure) × (r.1 ≡ caught f)))
        ⊎ (Updated d r.0 now id t m × (r.1 ≡ done id))
  unfolding set_status
  set_status_cases d now id t m = elim (Result-cases (verify_status_update b d id (some t))) [
    | inr (e, k) ↦ rw (k, set_status) (inl (refl, (e, refl)))
    | inl (r, k) ↦
        elim (Result-cases (update d id (record { status = some t; meta = m; updated = now }))) [
          | inr (e, l) ↦ rw (k, set_status) (rw l (inl (refl, (_, refl))))
          | inl (d', l) ↦
              let (e, found, valid, allowed) = verify_lem d id t k in
              rw (k, set_status)
                (rw l (
                  inr (
                    record {
                      execution = e;
                      found = found;
                      valid = valid;
                      allowed = allowed;
                      written = l;
                    },
                    refl,
                  )))
        ]
  ]

  -- `setStatus` never rejects. Either it resolves with an error and no document has changed, or it
  -- resolves with the id, and the status and the metadata are written to that document alone.
  pub set_status_effect :
      (d : Docs) (now : ℕ) (id : String) (t : Status) (m : MetaData) (j : String)
      → let r = set_status b d now id t m in
        ((r.0 ≡ d) × ((f : Failure) × (r.1 ≡ caught f)))
        ⊎ ((r.1 ≡ done id)
            × (get r.0 j ≡ (
                if id === j
                then map_ok
                    (patched (record { status = some t; meta = m; updated = now }))
                    (get d j)
                else get d j)))
  set_status_effect d now id t m j = elim (set_status_cases d now id t m) [
    | inl h ↦ inl h
    | inr (u, h) ↦ inr (h, get-update d _ id j _ u.written)
  ]

  set_status_done :
      (d d' : Docs) (now : ℕ) (id : String) (s t : Status) (m : MetaData) (e : Execution)
      (r : Option Status)
      → (id === "") ≡ false
      → get d id ≡ ok e
      → e.status ≡ some s
      → update d id (record { status = some t; meta = m; updated = now }) ≡ ok d'
      → is_valid_status t ≡ true
      → check_update (some s) t ≡ ok r
      → (set_status b d now id t m).1 ≡ done id
  unfolding set_status
  set_status_done d d' now id s t m e r named found has writes valid k =
      rw (verify_ok d id s t e r named found has valid k, set_status) (rw writes refl)

  -- Where the document is found and the backend writes, `setStatus` succeeds exactly when the new
  -- status is the stored one, or the stored one has not ended and is in no later phase.
  pub set_status_iff :
      (d d' : Docs) (now : ℕ) (id : String) (s t : Status) (m : MetaData) (e : Execution)
      → (id === "") ≡ false
      → get d id ≡ ok e
      → e.status ≡ some s
      → update d id (record { status = some t; meta = m; updated = now }) ≡ ok d'
      → phase s ≤ 2
      → phase t ≤ 2
      → ((set_status b d now id t m).1 ≡ done id)
        ↔ ((s ≡ t) ⊎ ((phase s < 2) × (phase s ≤ phase t)))
  set_status_iff d d' now id s t m e named found has writes hs ht = (
    λ h. elim (set_status_cases d now id t m) [
      | inl (_, (f, k)) ↦ cc
      | inr (u, _) ↦ (check_update_iff s t hs ht).0 (
          subst (λ x. is_ok (check_update x t) ≡ true)
            (ap (λ (x : Execution). x.status) (ok-injective (sym u.found ∙ found)) ∙ has) u.allowed)
    ],
    λ h.
        let (r, k) = is_ok-ok (check_update (some s) t) ((check_update_iff s t hs ht).1 h) in
        set_status_done d d' now id s t m e r named found has writes ((is_valid_iff t).1 ht) k,
  )
