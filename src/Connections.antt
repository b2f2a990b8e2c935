-- ===== src/Connections.antt =====
-- `WebSocketConnectionRegistry` of hub/src/goffy_hub/connections.py: the live sockets of each
-- credential, as sets without repetition. What runs under the lock is one step. A socket is known by
-- a number, and `revoke` returns the sockets that it goes on to close.
use goffy_os.Prelude.{
  ℕ, ◌≡◌, refl, sym, ap, inl, inr, Bool, true, false, not, ◌&&◌, none, some, List, [], ◌∷◌, arith,
  contains, keep_if, Option-cases, Bool-cases, nat_eq, nat_beq_iff, ◌==◌, if◌then◌else◌,
}
use goffy_os.Prelude.Dict.{Dict, get, put, remove, get-put, get-remove}
use goffy_os.Protocol.{Uuid}

abbrev pub Socket : Type 0
Socket = ℕ

abbrev pub Connections : Type 0
Connections = Dict Uuid (List Socket)

-- connections.get(credential_id, ())
abbrev pub sockets_of : Connections → Uuid → List Socket
sockets_of cs id = elim (get cs id) [ none ↦ [] | some ws ↦ ws ]

add_socket : List Socket → Socket → List Socket
add_socket ws w = if contains ws w then ws else w ∷ ws

unfoldable pub register_socket : Uuid → Socket → Connections → Connections
unfolding add_socket
register_socket id w cs = put cs id (add_socket (sockets_of cs id) w)

is_empty : List Socket → Bool
is_empty [] = true
is_empty (w ∷ ws) = false

unfoldable pub unregister_socket : Uuid → Socket → Connections → Connections
unfolding is_empty
unregister_socket id w cs = elim (get cs id) [
  | none ↦ cs
  | some ws ↦
      let rest = keep_if (λ x. not (x == w)) ws in
      if is_empty rest then remove cs id else put cs id rest
]

unfoldable pub revoke_sockets : Uuid → Connections → Connections × List Socket
revoke_sockets id cs = (remove cs id, sockets_of cs id)

contains-keep_if :
    (ws : List Socket) (w x : Socket)
    → contains (keep_if (λ y. not (y == w)) ws) x ≡ (contains ws x && not (x == w))
contains-keep_if [] w x = refl
contains-keep_if (y ∷ ws) w x =
    ground (arith, contains-keep_if ws w x, nat_beq_iff y x, nat_beq_iff y w, nat_beq_iff x w)

contains-known :
    (ws : List Socket) (w x : Socket)
    → contains ws w ≡ true
    → contains ws x ≡ (if w == x then true else contains ws x)
contains-known ws w x known = elim (Bool-cases (w == x)) [
  | inl same ↦ let at : w ≡ x = (nat_beq_iff w x).0 same in rw same (rw (← at) known)
  | inr other ↦ rw other refl
]

contains-add_socket :
    (ws : List Socket) (w x : Socket)
    → contains (add_socket ws w) x ≡ (if w == x then true else contains ws x)
unfolding add_socket
contains-add_socket ws w x = elim (Bool-cases (contains ws w)) [
  | inl known ↦ rw known (contains-known ws w x known)
  | inr new ↦ rw new (ground arith)
]

is_empty-contains : (ws : List Socket) (x : Socket) → is_empty ws ≡ true → contains ws x ≡ false
unfolding is_empty
is_empty-contains [] x h = refl
is_empty-contains (w ∷ ws) x h = cc

sockets_of-other : (cs : Connections) (id j : Uuid) → (id == j) ≡ true → get cs j ≡ get cs id
sockets_of-other cs id j h = let same : id ≡ j = (nat_beq_iff id j).0 h in ap (get cs) (sym same)

-- Registering a socket adds exactly this socket to what the revocation of a credential closes, and
-- only for its own credential.
pub revoke_sockets-register_socket :
    (id j : Uuid) (w x : Socket) (cs : Connections)
    → contains (revoke_sockets j (register_socket id w cs)).1 x
      ≡ (if id == j && w == x then true else contains (revoke_sockets j cs).1 x)
unfolding revoke_sockets register_socket
revoke_sockets-register_socket id j w x cs =
    let ws = add_socket (sockets_of cs id) w in
    elim (Bool-cases (id == j)) [
      | inl same ↦ ground (
        arith,
        get-put cs id j ws,
        contains-add_socket (sockets_of cs id) w x,
        sockets_of-other cs id j same,
      )
      | inr other ↦ ground (arith, get-put cs id j ws)
    ]

-- Unregistering a socket takes exactly this socket out of what the revocation of its credential
-- closes.
pub revoke_sockets-unregister_socket :
    (id j : Uuid) (w x : Socket) (cs : Connections)
    → contains (revoke_sockets j (unregister_socket id w cs)).1 x
      ≡ (if id == j && w == x then false else contains (revoke_sockets j cs).1 x)
unfolding revoke_sockets unregister_socket
revoke_sockets-unregister_socket id j w x cs = elim (Option-cases (get cs id)) [
  | inl missing ↦ elim (Bool-cases (id == j)) [
    | inl same ↦ ground (arith, sockets_of-other cs id j same)
    | inr other ↦ ground arith
  ]
  | inr (ws, found) ↦
      let rest = keep_if (λ y. not (y == w)) ws in
      let empties = is_empty-contains rest x in
      elim (Bool-cases (id == j)) [
        | inl same ↦ ground (
          arith,
          get-put cs id j rest,
          get-remove cs id j,
          contains-keep_if ws w x,
          nat_beq_iff x w,
          nat_beq_iff w x,
          empties,
          sockets_of-other cs id j same,
        )
        | inr other ↦ ground (arith, get-put cs id j rest, get-remove cs id j)
      ]
]
