-- ===== src/Mcp/Slots/Pruning.antt =====
-- Which sessions `_prune_idle_sessions` of mcp_server.py drops, and when a slot is granted.
use goffy_os.Prelude.{
  ℕ, String, ◌≡◌, refl, false, none, some, [], ◌∷◌, arith, contains, string_eq, ◌==◌, if◌then◌else◌,
  Bool-cases, Option-cases, inl, inr, eq_iff,
}
use goffy_os.Prelude.Dict.{Dict, get, IsDistinct, get-remove_all}
use goffy_os.Mcp.Slots.{Limits, Slots, is_idle, expired, prune_idle_sessions}

module _ (limits : Limits) (now : ℕ) (streaming : Dict String ℕ) where
  contains-expired-absent :
      (active : Dict String ℕ) (id : String)
      → get active id ≡ none
      → contains (expired limits now streaming active) id ≡ false
  unfolding get expired
  contains-expired-absent [] id h = refl
  contains-expired-absent ((j, t) ∷ active) id h = ground (arith, contains-expired-absent active id)

  contains-expired :
      (active : Dict String ℕ) (id : String) (last : ℕ)
      → IsDistinct active
      → get active id ≡ some last
      → contains (expired limits now streaming active) id ≡ is_idle limits now streaming id last
  unfolding get expired
  contains-expired [] id last u h = cc
  contains-expired ((j, t) ∷ active) id last u h = elim (Bool-cases (j == id)) [
    | inl hit ↦
        let same : j ≡ id = (eq_iff j id).0 hit in
        rw (← same) (
          let absent = contains-expired-absent active j u.0 in
          let time : t ≡ last = ground arith in rw (← time) (ground (arith, absent, eq_iff j j)))
    | inr miss ↦ ground (arith, contains-expired active id last u.1)
  ]

-- What pruning does to each session: it is dropped exactly when its last activity is at least the
-- timeout ago and none of its streams is open, and else keeps its time.
get-prune_idle_sessions :
    (limits : Limits) (now : ℕ) (s : Slots) (id : String)
    → IsDistinct s.active_sessions
    → get (prune_idle_sessions limits now s).active_sessions id ≡ elim (get s.active_sessions id) [
      | none ↦ none
      | some last ↦
          if is_idle limits now s.streaming_session_counts id last then none else some last
    ]
unfolding prune_idle_sessions
get-prune_idle_sessions limits now s id u =
    let gone = expired limits now s.streaming_session_counts s.active_sessions in
    elim (Option-cases (get s.active_sessions id)) [
      | inl absent ↦ rw (get-remove_all s.active_sessions gone id, absent) (ground arith)
      | inr (last, found) ↦
          rw
            (
              get-remove_all s.active_sessions gone id,
              found,
              contains-expired limits now s.streaming_session_counts s.active_sessions id last u
                  found,
            )
            refl
    ]
