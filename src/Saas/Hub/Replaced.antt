-- ===== src/Saas/Hub/Replaced.antt =====
-- internal/saas/ws/hub.go: registration, and what the handler of a replaced connection does.
use trandingnok.Base.{ℕ, ◌≡◌, refl, ◌≢◌, Bool, true, false, none, List, [], ◌∷◌, ◌++◌, arith}
use trandingnok.Saas.Hub.{Hub, load_conn, delete_conn, store_conn, send_to_agent, register, leave}

pub load-delete_conn :
    (user_id : ℕ) (conns : List (ℕ × ℕ)) → load_conn user_id (delete_conn user_id conns) ≡ none
unfolding load_conn delete_conn
load-delete_conn user_id [] = refl
load-delete_conn user_id ((u, c) ∷ conns) = ground (arith, load-delete_conn user_id conns)

load-delete_conn_other :
    (user_id other_id : ℕ) (conns : List (ℕ × ℕ))
    → other_id ≢ user_id
    → load_conn other_id (delete_conn user_id conns) ≡ load_conn other_id conns
unfolding load_conn delete_conn
load-delete_conn_other user_id other_id [] n = refl
load-delete_conn_other user_id other_id ((u, c) ∷ conns) n =
    ground (arith, load-delete_conn_other user_id other_id conns n)

-- When a user's connection is replaced by one that can be written to, the new one takes the next
-- message, the replaced one is closed, and the registration of another user stays. But once the
-- handler of the replaced connection returns, the next message to that user is not delivered, for
-- every hub: the handler has removed the new connection.
pub register-leave :
    (writes : ℕ → Bool) (user_id other_id old new : ℕ) (hub : Hub)
    → other_id ≢ user_id
    → writes new ≡ true
    → let both = register user_id new (register user_id old hub) in
      (send_to_agent writes user_id both ≡ (both, true))
      × (both.closed ≡ (register user_id old hub).closed ++ (old ∷ []))
      × (load_conn other_id both.conns ≡ load_conn other_id hub.conns)
      × (send_to_agent writes user_id (leave user_id old both) ≡ (leave user_id old both, false))
unfolding register send_to_agent leave store_conn load_conn
register-leave writes user_id other_id old new hub n w =
    let first = register user_id old hub in
    let both = register user_id new first in
    let gone = load-delete_conn user_id both.conns in
    let kept = load-delete_conn_other user_id other_id first.conns n in
    let kept' = load-delete_conn_other user_id other_id hub.conns n in
    ground (arith, gone, kept, kept')
