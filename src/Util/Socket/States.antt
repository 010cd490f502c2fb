-- ===== src/Util/Socket/States.antt =====
-- The states that the callback is called with.
use csae.Prelude.{
  ℕ, ◌≡◌, ◌≢◌, ◌⊎◌, inl, inr, refl, Bool, true, false, not, ◌&&◌, if◌then◌else◌, Option, none, some,
  List, [], ◌∷◌, arith,
}
use csae.Util.Socket.{
  ConnectState, closed, connected, lost, Client, same_state, observe, change_state, listen,
}

-- The calls of the callback, one more or not.
abbrev called : Option ConnectState → List ConnectState → List ConnectState
called none rest = rest
called (some state) rest = state ∷ rest

-- `listen` once for each look at the connection, while nobody else touches the client.
unfoldable pub listens : List ℕ → Client → Client × List ConnectState
unfolding listen
listens [] c = (c, [])
listens (tcp_state ∷ later) c =
    let (c', state) = listen tcp_state c in
    let (c'', rest) = listens later c' in (c'', called state rest)

-- Each state is CONNECTED or LOST, and another one than the state before it.
abbrev pub Alternates : ConnectState → List ConnectState → Type 0
Alternates before [] = Unit {0}
Alternates before (s ∷ rest) = ((s ≡ connected) ⊎ (s ≡ lost)) × (s ≢ before) × Alternates s rest

abbrev pub last : ConnectState → List ConnectState → ConnectState
last before [] = before
last before (s ∷ rest) = last s rest

observe-IsUp :
    (tcp_state : ℕ) (before state : ConnectState)
    → observe tcp_state before ≡ some state
    → (state ≡ connected) ⊎ (state ≡ lost)
unfolding observe
observe-IsUp tcp_state before connected e = inl refl
observe-IsUp tcp_state before lost e = inr refl
observe-IsUp tcp_state before closed e = absurd (ground arith)

same_state-eq : (a b : ConnectState) → same_state a b ≡ false → a ≢ b
same_state-eq closed closed e = λ h. cc
same_state-eq connected connected e = λ h. cc
same_state-eq lost lost e = λ h. cc
same_state-eq closed connected e = λ h. cc
same_state-eq closed lost e = λ h. cc
same_state-eq connected closed e = λ h. cc
same_state-eq connected lost e = λ h. cc
same_state-eq lost closed e = λ h. cc
same_state-eq lost connected e = λ h. cc

-- What one look does: nothing, or a change of state that the callback is told of.
data IsLook (c : Client) : Client × Option ConnectState → Type 0 where
  quiet : IsLook c (c, none)
  change :
      (state : ConnectState)
      → (state ≡ connected) ⊎ (state ≡ lost)
      → state ≢ c.state
      → c.has_callback ≡ true
      → IsLook c (record c { state = state }, some state)

not_and : (a b : Bool) → (not a && b) ≡ true → (a ≡ false) × (b ≡ true)
not_and true b e = cc
not_and false b e = (refl, e)

if-IsLook :
    (c : Client) (b : Bool) (x y : Client × Option ConnectState)
    → (b ≡ true → IsLook c x)
    → IsLook c y
    → IsLook c (if b then x else y)
if-IsLook c true x y hx hy = hx refl
if-IsLook c false x y hx hy = hy

change_state-IsLook :
    (state : ConnectState) (c : Client)
    → (state ≡ connected) ⊎ (state ≡ lost)
    → IsLook c (change_state state c)
unfolding change_state
change_state-IsLook state c up =
    if-IsLook c (not (same_state state c.state) && c.has_callback) _ _
      (λ e.
        let (other, some_callback) = not_and (same_state state c.state) c.has_callback e in
        change state up (same_state-eq state c.state other) some_callback)
      quiet

listen-IsLook : (tcp_state : ℕ) (c : Client) → IsLook c (listen tcp_state c)
unfolding listen
listen-IsLook tcp_state c =
    look (observe tcp_state c.state) (λ s e. observe-IsUp tcp_state c.state s e)
  where
    look :
        (o : Option ConnectState)
        → ((s : ConnectState) → o ≡ some s → (s ≡ connected) ⊎ (s ≡ lost))
        → IsLook c (elim o [ none ↦ (c, none) | some state ↦ change_state state c ])
    look none up = quiet
    look (some s) up = change_state-IsLook s c (up s refl)

-- However often the timer looks at a connection, and whatever TCP states it sees, the states that
-- the callback is called with are CONNECTED or LOST, each another one than that before it, the
-- first another one than the client had, and the client has the last of them at the end.
pub listens-Alternates :
    (tcp_states : List ℕ) (c : Client)
    → Alternates c.state (listens tcp_states c).1
      × ((listens tcp_states c).0.state ≡ last c.state (listens tcp_states c).1)
unfolding listens
listens-Alternates [] c = (tt, refl)
listens-Alternates (tcp_state ∷ later) c =
    after (listen tcp_state c) (listen-IsLook tcp_state c) (λ c'. listens-Alternates later c')
  where
    after :
        (look : Client × Option ConnectState)
        → IsLook c look
        → ((c' : Client)
            → Alternates c'.state (listens later c').1
              × ((listens later c').0.state ≡ last c'.state (listens later c').1))
        → Alternates c.state (called look.1 (listens later look.0).1)
          × ((listens later look.0).0.state ≡ last c.state (called look.1 (listens later look.0).1))
    after look quiet ih = ih c
    after look (change state up other some_callback) ih =
        let (rest, end) = ih (record c { state = state }) in ((up, other, rest), end)
