-- ===== src/WebSocket/Replay.antt =====
-- A message ID that comes again at the endpoint of app.py.
use goffy_os.Prelude.{
  ℕ, String, ◌≡◌, ◌⊎◌, true, some, List, [], ◌∷◌, ◌++◌, arith, contains, nat_eq, leb, length,
  ==_refl,
}
use goffy_os.Protocol.{Uuid}
use goffy_os.Registry.{Models, ToolRegistry}
use goffy_os.Approval.{Crypto}
use goffy_os.Auth.Principal.{AuthenticatedPrincipal}
use goffy_os.WebSocket.{
  Envelope, Wire, Tick, Session, send_event, send_error, handle_message,
  max_messages_per_connection,
}
use goffy_os.WebSocket.Bounds.{dispatch-bound}

contains-append-last : (ids : List Uuid) (id : Uuid) → contains (ids ++ id ∷ []) id ≡ true
contains-append-last [] id = ground (arith, ==_refl {A = ℕ} id)
contains-append-last (i ∷ ids) id = ground (arith, contains-append-last ids id)

module _ (c : Crypto) (m : Models) (w : Wire) (registry : ToolRegistry)
    (principal : AuthenticatedPrincipal) where
  -- A message that is not the first of its ID finds its ID among the seen ones, or no room left.
  handle_message-marks :
      (tick : Tick) (raw : String) (e : Envelope) (s : Session)
      → w.parse_envelope raw ≡ some e
      → let s' = handle_message c m w registry principal tick raw s in
        (contains s'.seen_message_ids e.message_id ≡ true)
        ⊎ (leb max_messages_per_connection (length s'.seen_message_ids) ≡ true)
  unfolding handle_message send_error send_event
  handle_message-marks tick raw e s parsed = ground (
    arith,
    contains-append-last s.seen_message_ids e.message_id,
    (dispatch-bound c m w registry principal tick e.message_type e
        (record s { seen_message_ids = s.seen_message_ids ++ e.message_id ∷ [] })).0,
  )

  -- A message whose ID was seen, or that finds no room, is refused.
  handle_message-refused :
      (tick : Tick) (raw : String) (e : Envelope) (s : Session)
      → w.parse_envelope raw ≡ some e
      → (contains s.seen_message_ids e.message_id ≡ true)
        ⊎ (leb max_messages_per_connection (length s.seen_message_ids) ≡ true)
      → let s' = handle_message c m w registry principal tick raw s in
        (s'.runs ≡ s.runs) × (s'.pending ≡ s.pending) × (s'.store ≡ s.store)
  unfolding handle_message send_error send_event
  handle_message-refused tick raw e s parsed why = ground arith

  -- A message that comes again right after one of the same ID, whatever else it says, starts no
  -- handler and changes neither the pending calls nor the approval store.
  pub handle_message-replay :
      (tick later : Tick) (raw again : String) (e f : Envelope) (s : Session)
      → w.parse_envelope raw ≡ some e
      → w.parse_envelope again ≡ some f
      → f.message_id ≡ e.message_id
      → let s' = handle_message c m w registry principal tick raw s in
        let s'' = handle_message c m w registry principal later again s' in
        (s''.runs ≡ s'.runs) × (s''.pending ≡ s'.pending) × (s''.store ≡ s'.store)
  handle_message-replay tick later raw again e f s parsed parsed_again same =
      handle_message-refused later again f (handle_message c m w registry principal tick raw s)
        parsed_again (rw same (handle_message-marks tick raw e s parsed))
