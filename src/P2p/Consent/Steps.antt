-- ===== src/P2p/Consent/Steps.antt =====
-- Each call keeps what is said of the connections and of the queue.
use mathlib.Core.Option
use mathlib.Core.Path.{subst}
use eos_reimagined.Base.{
  ℕ, Bool, true, false, not, ◌&&◌, ◌||◌, Option, none, some, List, [], ◌∷◌, All, ◌==◌, ◌≡◌, ◌∙◌,
  sym, if◌then◌else◌, Bool-cases, inl, inr,
}
use eos_reimagined.Base.Texts.{same_text}
use eos_reimagined.Base.Dict.{find, remove, find-remove}
use eos_reimagined.ByteBuffer.{Text}
use eos_reimagined.Wire.Peer.{P2pData, deserialize_p2p_data}
use eos_reimagined.Eos.{Settings, is_user}
use eos_reimagined.P2p.{
  Connection, ConnectionKey, Connections, connection_key, ConnectionState, connection_open,
  connection_pending, connection_requested, ReceivedPacket, key_of, concerns, flush_queue, unpicked,
  p2p_connect_request, p2p_connect_response, p2p_data,
}
use eos_reimagined.P2p.Packets.{discard_in, is_open, socket_of}
use eos_reimagined.P2p.Calls.{P2pCall, call_send, call_accept, call_message}
use eos_reimagined.P2p.Tables.{find-unpicked, find-discard_in, emptied, All-flush_queue}

abbrev pub has_open : Option Connection → Bool
has_open none = false
has_open (some entry) = is_open entry.state

unfoldable pub same_user : Text → Option Text → Bool
same_user id none = false
same_user id (some user) = same_text user id

unfoldable pub names_socket : Text → Option P2pData × List ℕ → Bool
names_socket socket (none, rest) = false
names_socket socket (some msg, rest) = same_text msg.socket_name socket

module _ (own : Settings) where
  -- The game sends to the peer on the socket, or accepts a connection with it.
  unfoldable pub local_yes : ConnectionKey → P2pCall → Bool
  unfolding same_user
  local_yes key (call_send network (some o)) =
      is_user own.product_user_id o.local_user
      && same_user key.0 o.remote_user
      && same_text (socket_of o.socket_id) key.1
  local_yes key (call_accept network (some o)) =
      is_user own.product_user_id o.local_user
      && same_user key.0 o.remote_user
      && same_text (socket_of o.socket_id) key.1
  local_yes key other = false

  -- The peer sends a request, an answer or a packet on the socket.
  unfoldable pub remote_yes : ConnectionKey → P2pCall → Bool
  unfolding names_socket
  remote_yes key (call_message network m) =
      (m.type_tag == p2p_connect_request
        || m.type_tag == p2p_connect_response
        || m.type_tag == p2p_data)
      && same_text m.source_id key.0
      && not (same_text m.source_id own.product_user_id)
      && names_socket key.1 (deserialize_p2p_data m.payload)
  remote_yes key other = false

unfoldable pub any_call : (P2pCall → Bool) → List P2pCall → Bool
any_call test [] = false
any_call test (c ∷ cs) = test c || any_call test cs

-- Who has asked for a connection in each of its states.
abbrev pub Backed : Bool → Bool → ConnectionState → Type 0
Backed l r connection_requested = r ≡ true
Backed l r connection_pending = l ≡ true
Backed l r connection_open = (l ≡ true) × (r ≡ true)

abbrev pub Agreed : Bool → Bool → Option Connection → Type 0
Agreed l r none = Unit {0}
Agreed l r (some entry) = Backed l r entry.state

abbrev pub Openly : Connections → ReceivedPacket → Type 0
Openly m packet = has_open (find (key_of packet) m) ≡ true

-- `l` and `r` say for which connections we and the peer have asked.
pub record IsConsented (l r : ConnectionKey → Bool) (m : Connections) (queue : List ReceivedPacket)
    : Type 0 where
  pub agreed : (key : ConnectionKey) → Agreed (l key) (r key) (find key m)
  pub queued : All (Openly m) queue

raise_state :
    (l l' r r' : Bool) (s : ConnectionState)
    → (l ≡ true → l' ≡ true)
    → (r ≡ true → r' ≡ true)
    → Backed l r s
    → Backed l' r' s
raise_state l l' r r' connection_requested hl hr b = hr b
raise_state l l' r r' connection_pending hl hr b = hl b
raise_state l l' r r' connection_open hl hr b = (hl b.0, hr b.1)

raise_entry :
    (l l' r r' : Bool) (o : Option Connection)
    → (l ≡ true → l' ≡ true)
    → (r ≡ true → r' ≡ true)
    → Agreed l r o
    → Agreed l' r' o
raise_entry l l' r r' none hl hr a = tt
raise_entry l l' r r' (some entry) hl hr a = raise_state l l' r r' entry.state hl hr a

-- More is asked for.
pub raise :
    (l l' r r' : ConnectionKey → Bool) (m : Connections) (queue : List ReceivedPacket)
    → ((key : ConnectionKey) → l key ≡ true → l' key ≡ true)
    → ((key : ConnectionKey) → r key ≡ true → r' key ≡ true)
    → IsConsented l r m queue
    → IsConsented l' r' m queue
raise l l' r r' m queue hl hr h = record {
  agreed = λ key. raise_entry (l key) (l' key) (r key) (r' key) _ (hl key) (hr key) (h.agreed key);
  queued = h.queued;
}

module _ (l r : ConnectionKey → Bool) where
  -- An entry is set, by `put` or `modify`.
  set-Agreed :
      (at : ConnectionKey) (new : Connection) (m m' : Connections)
      → ((key : ConnectionKey)
          → find key m' ≡ (if connection_key.same at key then some new else find key m))
      → Backed (l at) (r at) new.state
      → ((key : ConnectionKey) → Agreed (l key) (r key) (find key m))
      → (key : ConnectionKey) → Agreed (l key) (r key) (find key m')
  set-Agreed at new m m' law b h key =
      rw (law key) (elim (Bool-cases (connection_key.same at key)) [
        | inl e ↦
            rw e (subst (λ k. Agreed (l k) (r k) (some new)) (connection_key.same_sound at key e) b)
        | inr n ↦ rw n (h key)
      ])

  pub remove-Agreed :
      (at : ConnectionKey) (m : Connections)
      → ((key : ConnectionKey) → Agreed (l key) (r key) (find key m))
      → (key : ConnectionKey) → Agreed (l key) (r key) (find key (remove at m))
  remove-Agreed at m h key =
      rw (find-remove at key m)
        (elim (Bool-cases (connection_key.same at key)) [ inl e ↦ rw e tt | inr n ↦ rw n (h key) ])

  pub unpicked-Agreed :
      (test : ConnectionKey → Bool) (m : Connections)
      → ((key : ConnectionKey) → Agreed (l key) (r key) (find key m))
      → (key : ConnectionKey) → Agreed (l key) (r key) (find key (unpicked test m))
  unpicked-Agreed test m h key =
      rw (find-unpicked test key m)
        (elim (Bool-cases (test key)) [ inl e ↦ rw e tt | inr n ↦ rw n (h key) ])

  emptied-Agreed :
      (a b : Bool) (o : Option Connection) → Agreed a b o → Agreed a b (Option.map emptied o)
  emptied-Agreed a b none h = tt
  emptied-Agreed a b (some entry) h = h

  pub discard-Agreed :
      (peer socket : Text) (m : Connections)
      → ((key : ConnectionKey) → Agreed (l key) (r key) (find key m))
      → (key : ConnectionKey) → Agreed (l key) (r key) (find key (discard_in peer socket m))
  discard-Agreed peer socket m h key =
      rw (find-discard_in peer socket key m) (elim (Bool-cases (concerns peer socket key)) [
        | inl e ↦ rw e (emptied-Agreed (l key) (r key) (find key m) (h key))
        | inr n ↦ rw n (h key)
      ])

-- An entry that is open stays open.
abbrev pub Stays : Connections → Connections → Type 0
Stays m m' = (key : ConnectionKey) → has_open (find key m) ≡ true → has_open (find key m') ≡ true

pub stay_open :
    (m m' : Connections) (queue : List ReceivedPacket)
    → Stays m m'
    → All (Openly m) queue
    → All (Openly m') queue
stay_open m m' [] k all = tt
stay_open m m' (packet ∷ queue) k all = (k (key_of packet) all.0, stay_open m m' queue k all.1)

set-Stays :
    (at : ConnectionKey) (new : Connection) (m m' : Connections)
    → ((key : ConnectionKey)
        → find key m' ≡ (if connection_key.same at key then some new else find key m))
    → (has_open (find at m) ≡ true → is_open new.state ≡ true)
    → Stays m m'
set-Stays at new m m' law k key h = rw (law key) (elim (Bool-cases (connection_key.same at key)) [
  | inl e ↦
      rw e
        (k (subst (λ a. has_open (find a m) ≡ true) (sym (connection_key.same_sound at key e)) h))
  | inr n ↦ rw n h
])

has_open-emptied :
    (o : Option Connection) → has_open o ≡ true → has_open (Option.map emptied o) ≡ true
has_open-emptied none h = h
has_open-emptied (some entry) h = h

pub discard-Stays : (peer socket : Text) (m : Connections) → Stays m (discard_in peer socket m)
discard-Stays peer socket m key h =
    rw (find-discard_in peer socket key m) (elim (Bool-cases (concerns peer socket key)) [
      | inl e ↦ rw e (has_open-emptied _ h)
      | inr n ↦ rw n h
    ])

-- A packet that a flush leaves is on a connection that a test does not pick.
pub unpicked-Openly :
    (test : ConnectionKey → Bool) (peer socket : Text) (m : Connections)
    → ((key : ConnectionKey) → test key ≡ true → concerns peer socket key ≡ true)
    → (queue : List ReceivedPacket) → All (Openly m) queue
    → All (Openly (unpicked test m)) (flush_queue peer socket queue)
unpicked-Openly test peer socket m k =
    All-flush_queue (Openly m) (Openly (unpicked test m)) peer socket λ packet stays h.
      rw (find-unpicked test (key_of packet) m) (elim (Bool-cases (test (key_of packet))) [
        | inl e ↦ absurd (cc (sym stays ∙ k (key_of packet) e))
        | inr n ↦ rw n h
      ])

pub kept-Openly :
    (peer socket : Text) (m : Connections) (queue : List ReceivedPacket)
    → All (Openly m) queue
    → All (Openly m) (flush_queue peer socket queue)
kept-Openly peer socket m = All-flush_queue (Openly m) (Openly m) peer socket (λ packet stays h. h)

module _ (l r : ConnectionKey → Bool) where
  pub set-IsConsented :
      (at : ConnectionKey) (new : Connection) (m m' : Connections) (queue : List ReceivedPacket)
      → ((key : ConnectionKey)
          → find key m' ≡ (if connection_key.same at key then some new else find key m))
      → Backed (l at) (r at) new.state
      → (has_open (find at m) ≡ true → is_open new.state ≡ true)
      → IsConsented l r m queue
      → IsConsented l r m' queue
  set-IsConsented at new m m' queue law b k h = record {
    agreed = set-Agreed l r at new m m' law b h.agreed;
    queued = stay_open m m' queue (set-Stays at new m m' law k) h.queued;
  }
