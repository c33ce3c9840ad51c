-- ===== src/Saas/Hub.antt =====
-- internal/saas/ws/hub.go: the registry of agent connections.
use trandingnok.Base.{
  ℕ, ◌+◌, Bool, true, false, Option, none, some, List, [], ◌∷◌, ◌++◌, ◌==◌, if◌then◌else◌,
}
pub mod Replaced
pub mod Handler
pub mod Replies

-- `Hub`: the connection registered for each user, and the connections that the server has closed.
-- A connection is a number.
pub record Hub : Type 0 where
  pub conns : List (ℕ × ℕ)
  pub closed : List ℕ

-- `sync.Map`: its Load, Delete and Store.
unfoldable pub load_conn : ℕ → List (ℕ × ℕ) → Option ℕ
load_conn user_id [] = none
load_conn user_id ((u, c) ∷ conns) = if u == user_id then some c else load_conn user_id conns

unfoldable pub delete_conn : ℕ → List (ℕ × ℕ) → List (ℕ × ℕ)
delete_conn user_id [] = []
delete_conn user_id ((u, c) ∷ conns) =
    let rest = delete_conn user_id conns in if u == user_id then rest else (u, c) ∷ rest

unfoldable pub store_conn : ℕ → ℕ → List (ℕ × ℕ) → List (ℕ × ℕ)
store_conn user_id c conns = (user_id, c) ∷ delete_conn user_id conns

-- `SendToAgent`; `writes` tells whether a write on a connection succeeds.
unfoldable pub send_to_agent : (ℕ → Bool) → ℕ → Hub → Hub × Bool
send_to_agent writes user_id hub = elim (load_conn user_id hub.conns) [
  | none ↦ (hub, false)
  | some c ↦
      if writes c
      then (hub, true)
      else (record hub { conns = delete_conn user_id hub.conns }, false)
]

abbrev pub to_close : Option ℕ → List ℕ
to_close none = []
to_close (some c) = c ∷ []

-- Step 3 of `HandleConnection`: the connection is stored, and the one it replaces is closed.
unfoldable pub register : ℕ → ℕ → Hub → Hub
register user_id c hub = record {
  conns = store_conn user_id c hub.conns;
  closed = hub.closed ++ to_close (load_conn user_id hub.conns);
}

-- The deferred calls when a handler returns, for whatever reason.
unfoldable pub leave : ℕ → ℕ → Hub → Hub
leave user_id c hub = record {
  conns = delete_conn user_id hub.conns;
  closed = hub.closed ++ (c ∷ []);
}
