-- ===== src/P2p/Consent.antt =====
-- A packet reaches the queue of the game only on a connection that both sides have asked for.
mod Steps
mod Keeps
mod Closings
mod Any
pub use Steps.{has_open, local_yes, remote_yes, any_call}
use eos_reimagined.Base.{
  Bool, true, false, ◌||◌, List, [], ◌∷◌, All, ◌≡◌, arith, some, Option, none,
}
use eos_reimagined.Base.Dict.{find}
use eos_reimagined.Eos.{Settings}
use eos_reimagined.P2p.{
  ConnectionKey, Connections, connection_key, ConnectionState, connection_open, connection_pending,
  connection_requested, Connection, ReceivedPacket, P2p, sdk_p2p, key_of,
}
use eos_reimagined.P2p.Packets.{is_open}
use eos_reimagined.P2p.Calls.{Delivers, P2pCall, called, called_all}
use Steps.{Backed, Agreed, IsConsented, raise}
use Keeps.{Fine}
use Any.{called-Fine}

module _ (own : Settings) where
  called_all-Fine :
      (l r : ConnectionKey → Bool) (cs : List P2pCall) (p : P2p)
      → Fine l r p
      → Fine
          (λ key. l key || any_call (local_yes own key) cs)
          (λ key. r key || any_call (remote_yes own key) cs)
          (called_all own cs p)
  unfolding called_all any_call
  called_all-Fine l r [] p h =
      raise l _ r _ _ _ (λ key e. ground (arith, e)) (λ key e. ground (arith, e)) h
  called_all-Fine l r (c ∷ cs) p h =
      let l' : ConnectionKey → Bool = λ key. l key || local_yes own key c in
      let r' : ConnectionKey → Bool = λ key. r key || remote_yes own key c in
      let seen : Fine l' r' p =
        raise l l' r r' _ _ (λ key e. ground (arith, e)) (λ key e. ground (arith, e)) h in
      let stepped : Fine l' r' (called own c p) =
        called-Fine own l' r' c p seen (λ key e. ground (arith, e)) (λ key e. ground (arith, e)) in
      raise _ _ _ _ _ _ (λ key e. ground (arith, e)) (λ key e. ground (arith, e))
        (called_all-Fine l' r' cs (called own c p) stepped)

  asked_by_both :
      (l r : Bool) (o : Option Connection)
      → Agreed l r o
      → has_open o ≡ true
      → (l ≡ true) × (r ≡ true)
  asked_by_both l r none a h = absurd (cc h)
  asked_by_both l r (some entry) a h = of_state entry.state a h
    where
      of_state : (s : ConnectionState) → Backed l r s → is_open s ≡ true → (l ≡ true) × (r ≡ true)
      of_state connection_open b e = b
      of_state connection_pending b e = absurd (unfold is_open in cc e)
      of_state connection_requested b e = absurd (unfold is_open in cc e)

  each_asked :
      (l r : ConnectionKey → Bool) (m : Connections) (queue : List ReceivedPacket)
      → ((key : ConnectionKey) → Agreed (l key) (r key) (find key m))
      → All (λ packet. has_open (find (key_of packet) m) ≡ true) queue
      → All
          (λ packet.
            (has_open (find (key_of packet) m) ≡ true)
            × (l (key_of packet) ≡ true)
            × (r (key_of packet) ≡ true))
          queue
  each_asked l r m [] agreed all = tt
  each_asked l r m (packet ∷ queue) agreed all =
      let asked = asked_by_both _ _ _ (agreed (key_of packet)) all.0 in
      ((all.0, asked.0, asked.1), each_asked l r m queue agreed all.1)

  -- After any calls on a new interface, with any messages among them, if the router drops no peer over
  -- what is sent in these: the connection of every packet that
  -- waits for the game is open, the game has sent a packet on it or accepted it, as the local user, and
  -- the peer has sent a request, an answer or a packet on it.
  pub packets_consented :
      (cs : List P2pCall)
      → All Delivers cs
      → let p = called_all own cs sdk_p2p in
        All
          (λ packet.
            (has_open (find (key_of packet) p.connections) ≡ true)
            × (any_call (local_yes own (key_of packet)) cs ≡ true)
            × (any_call (remote_yes own (key_of packet)) cs ≡ true))
          p.receive_queue
  unfolding find
  packets_consented cs delivers =
      let fine =
        called_all-Fine (λ key. false) (λ key. false) cs sdk_p2p
          (record { agreed = λ key. tt; queued = tt }) in
      each_asked (λ key. any_call (local_yes own key) cs) (λ key. any_call (remote_yes own key) cs)
        (called_all own cs sdk_p2p).connections _ fine.agreed fine.queued
