-- ===== src/Server/Gateway/Ack.antt =====
-- The laws of `acknowledge_connection` of server/src/gateway.rs: whose answer it takes, and how often.
use tunnelbridge.Prelude.{
  inl, inr, ℕ, ◌≡◌, ◌<◌, ◌↔◌, Bool, true, false, Option, none, some, arith, nat_eq, nat_beq_iff,
  Option-cases,
}
use tunnelbridge.Prelude.Text.{Text, text_eq}
use tunnelbridge.Prelude.Map.{get, get-remove}
use tunnelbridge.Protocol.{Uuid}
use tunnelbridge.Server.State.{AppState, PendingConnection}
use tunnelbridge.Server.Gateway.Connection.{acknowledge_connection, wrong_ticket}

-- The presented ticket hashes to the digest on record.
pub HasDigest : (Text → Text) → Option Text → Text → Type 0
HasDigest hash_token none digest = ⊥
HasDigest hash_token (some ticket) digest = digest ≡ hash_token ticket

-- The answer comes from the agent that was asked, in time and with the ticket that it was sent.
pub Redeems : (Text → Text) → AppState → ℕ → Uuid → Uuid → Option Text → Type 0
Redeems hash_token s now id agent_id ticket =
    (p : PendingConnection) × (get s.pending id ≡ some p)
    × (p.agent_id ≡ agent_id)
    × (now < p.expires_at)
    × HasDigest hash_token ticket p.ticket_hash

module _ (hash_token : Text → Text) where
  right_ticket :
      (p : PendingConnection) (ticket : Option Text)
      → (wrong_ticket hash_token p ticket ≡ false) ↔ HasDigest hash_token ticket p.ticket_hash
  unfolding wrong_ticket HasDigest
  right_ticket p none = ground arith
  right_ticket p (some t) = ground (arith, text_eq.beq_iff p.ticket_hash (hash_token t))

  redeems :
      (s : AppState) (now : ℕ) (id agent_id : Uuid) (ticket : Option Text) (accepted : Bool)
      (error : Option Text)
      → (acknowledge_connection hash_token s now id agent_id ticket accepted error).0 ≡ true
      → Redeems hash_token s now id agent_id ticket
  unfolding acknowledge_connection Redeems
  redeems s now id agent_id ticket accepted error h = elim (Option-cases (get s.pending id)) [
    | inl e ↦ ground arith
    | inr (p, e) ↦ (
      p,
      e,
      ground (arith, nat_beq_iff p.agent_id agent_id),
      ground arith,
      ground (arith, right_ticket p ticket),
    )
  ]

  redeemed :
      (s : AppState) (now : ℕ) (id agent_id : Uuid) (ticket : Option Text) (accepted : Bool)
      (error : Option Text)
      → Redeems hash_token s now id agent_id ticket
      → (acknowledge_connection hash_token s now id agent_id ticket accepted error).0 ≡ true
  unfolding acknowledge_connection Redeems
  redeemed s now id agent_id ticket accepted error (p, e, same, time, digest) =
      ground (arith, nat_beq_iff p.agent_id agent_id, right_ticket p ticket)

  -- The server takes an answer exactly when the connection still waits for one, the answer comes
  -- from the agent of its tunnel, before the ticket's end, and with a ticket whose hash is the one
  -- on record. This holds for every hash function.
  pub acknowledge_connection_lem :
      (s : AppState) (now : ℕ) (id agent_id : Uuid) (ticket : Option Text) (accepted : Bool)
      (error : Option Text)
      → ((acknowledge_connection hash_token s now id agent_id ticket accepted error).0 ≡ true)
        ↔ Redeems hash_token s now id agent_id ticket
  acknowledge_connection_lem s now id agent_id ticket accepted error = (
    redeems s now id agent_id ticket accepted error,
    redeemed s now id agent_id ticket accepted error,
  )

  gone :
      (s : AppState) (now : ℕ) (id agent_id : Uuid) (ticket : Option Text) (accepted : Bool)
      (error : Option Text)
      → (acknowledge_connection hash_token s now id agent_id ticket accepted error).0 ≡ true
      → get (acknowledge_connection hash_token s now id agent_id ticket accepted error).1.pending id
        ≡ none
  unfolding acknowledge_connection
  gone s now id agent_id ticket accepted error h =
      ground (arith, get-remove s.pending id id, nat_beq_iff id id)

  unknown :
      (s : AppState) (now : ℕ) (id agent_id : Uuid) (ticket : Option Text) (accepted : Bool)
      (error : Option Text)
      → get s.pending id ≡ none
      → acknowledge_connection hash_token s now id agent_id ticket accepted error ≡ (false, s)
  unfolding acknowledge_connection
  unknown s now id agent_id ticket accepted error h = ground arith

  -- A ticket opens at most one connection: once an answer is taken, every further answer for that
  -- connection, whatever its agent, time, ticket and content, is refused and changes nothing.
  pub acknowledge_connection_once :
      (s : AppState) (now : ℕ) (id agent_id : Uuid) (ticket : Option Text) (accepted : Bool)
      (error : Option Text)
      → (acknowledge_connection hash_token s now id agent_id ticket accepted error).0 ≡ true
      → (now' : ℕ) (agent_id' : Uuid) (ticket' : Option Text) (accepted' : Bool)
        (error' : Option Text)
      → let s' = (acknowledge_connection hash_token s now id agent_id ticket accepted error).1 in
        acknowledge_connection hash_token s' now' id agent_id' ticket' accepted' error'
        ≡ (false, s')
  acknowledge_connection_once s now id agent_id ticket accepted error h now' agent_id' ticket'
        accepted' error' =
      unknown (acknowledge_connection hash_token s now id agent_id ticket accepted error).1 now' id
        agent_id' ticket' accepted' error' (gone s now id agent_id ticket accepted error h)
