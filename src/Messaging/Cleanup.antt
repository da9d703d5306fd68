-- ===== src/Messaging/Cleanup.antt =====
-- What the clean-up of packages/teraslice-messaging/src/messenger/server.ts does with a client that has
-- disconnected.
use teraslice.Messaging.Clients.{
  ClientState, offline, online, disconnected, available, unavailable, shutdown, Client, client_of,
  set_client, moved, update_client_state, is_cleaned, updated, cleanup_each, cleanup_clients,
}
use teraslice.Base.{
  ℕ, ◌+◌, ◌≤◌, String, ◌≡◌, refl, sym, subst, ◌∙◌, inl, inr, Bool, true, false, Option, none, some,
  List, [], ◌∷◌, arith, if◌then◌else◌, Bool-cases, ◌===◌, ===_iff, any_of,
}

client_of-set_client :
    (c : Client) (j : String) (l : List Client)
    → (c.client_id === j) ≡ false
    → client_of j (set_client c l) ≡ client_of j l
client_of-set_client c j [] h = refl
client_of-set_client c j (d ∷ l) h = ground (
  arith,
  ===_iff d.client_id c.client_id,
  ===_iff d.client_id j,
  ===_iff c.client_id j,
  client_of-set_client c j l h,
)

pub client_of_id :
    (id : String) (c : Client) (l : List Client) → client_of id l ≡ some c → c.client_id ≡ id
client_of_id id c [] h = absurd (ground arith)
client_of_id id c (d ∷ l) h = ground (arith, ===_iff d.client_id id, client_of_id id c l)

moved_id : (t : ℕ) (state : ClientState) (c : Client) → (moved t state c).client_id ≡ c.client_id
moved_id t offline c = refl
moved_id t online c = refl
moved_id t disconnected c = refl
moved_id t available c = refl
moved_id t unavailable c = refl
moved_id t shutdown c = refl

updated_other :
    (t : ℕ) (id j : String) (state : ClientState) (l : List Client) (o : Option Client)
    → ((c : Client) → o ≡ some c → c.client_id ≡ id)
    → (id === j) ≡ false
    → client_of j (updated t id state l o).0 ≡ client_of j l
updated_other t id j state l none k h = refl
updated_other t id j state l (some c) k h =
    ground (arith, client_of-set_client (moved t state c) j l, moved_id t state c, k c refl)

update_client_state_other :
    (now timeout : ℕ) (id j : String) (state : ClientState) (l : List Client)
    → (id === j) ≡ false
    → client_of j (update_client_state now timeout id state l).0 ≡ client_of j l
unfolding update_client_state
update_client_state_other now timeout id j state l h =
    updated_other (now + timeout) id j state l (client_of id l) (λ c e. client_of_id id c l e) h

-- The clients with the id `j` are not cleaned.
abbrev Spared : ℕ → String → List Client → Type 0
Spared now j [] = Unit
Spared now j (c ∷ l) = ((c.client_id ≡ j → is_cleaned now c ≡ false)) × Spared now j l

cleanup_each_other :
    (now timeout : ℕ) (j : String) (l clients : List Client)
    → Spared now j l
    → client_of j (cleanup_each now timeout l clients).0 ≡ client_of j clients
cleanup_each_other now timeout j [] clients s = refl
cleanup_each_other now timeout j (c ∷ l) clients s = elim (Bool-cases (is_cleaned now c)) [
  | inl k ↦ rw k (
      cleanup_each_other now timeout j l _ s.1
      ∙ update_client_state_other now timeout c.client_id j offline clients
          (ground (arith, ===_iff c.client_id j, s.0)))
  | inr k ↦ rw k (cleanup_each_other now timeout j l clients s.1)
]

cleaned_late :
    (now : ℕ) (c : Client) (t : ℕ)
    → c.state ≡ disconnected
    → c.offline_at ≡ some t
    → t ≤ now
    → is_cleaned now c ≡ false
unfolding is_cleaned
cleaned_late now c t d o le = ground arith

-- Each client has its own id.
abbrev pub Keyed : List Client → Type 0
Keyed [] = Unit
Keyed (c ∷ l) = (any_of (λ (d : Client). d.client_id === c.client_id) l ≡ false) × Keyed l

Spared-fresh :
    (now : ℕ) (j : String) (l : List Client)
    → any_of (λ (d : Client). d.client_id === j) l ≡ false
    → Spared now j l
Spared-fresh now j [] h = tt
Spared-fresh now j (c ∷ l) h =
    ((λ e. absurd (ground (arith, ===_iff c.client_id j, e))), Spared-fresh now j l (ground arith))

found_first :
    (d c : Client) (o : Option Client) (b : Bool)
    → b ≡ true
    → (if b then some d else o) ≡ some c
    → d ≡ c
found_first d c o true e h = cc
found_first d c o false e h = absurd (ground arith)

Spared-Keyed :
    (now : ℕ) (j : String) (c : Client) (l : List Client)
    → Keyed l
    → client_of j l ≡ some c
    → is_cleaned now c ≡ false
    → Spared now j l
Spared-Keyed now j c [] k h f = tt
Spared-Keyed now j c (d ∷ l) k h f = elim (Bool-cases (d.client_id === j)) [
  | inl e ↦ (
    (λ _.
        subst (λ x. is_cleaned now x ≡ false) (sym (found_first d c _ (d.client_id === j) e h)) f),
    Spared-fresh now j l (
        subst (λ i. any_of (λ (x : Client). x.client_id === i) l ≡ false)
          ((===_iff d.client_id j).0 e) k.0),
  )
  | inr e ↦ (
    (λ p. absurd (ground (arith, ===_iff d.client_id j, p))),
    Spared-Keyed now j c l k.1 (ground arith) f,
  )
]

-- A clean-up that runs when the time of a disconnected client to be offline has come, or later, leaves
-- that client as it is: it does not become offline.
pub cleanup_clients_late :
    (now timeout t : ℕ) (id : String) (c : Client) (clients : List Client)
    → Keyed clients
    → client_of id clients ≡ some c
    → c.state ≡ disconnected
    → c.offline_at ≡ some t
    → t ≤ now
    → client_of id (cleanup_clients now timeout clients).0 ≡ some c
unfolding cleanup_clients
cleanup_clients_late now timeout t id c clients k h d o le =
    cleanup_each_other now timeout id clients clients
      (Spared-Keyed now id c clients k h (cleaned_late now c t d o le))
    ∙ h
