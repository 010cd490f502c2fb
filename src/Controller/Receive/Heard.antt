-- ===== src/Controller/Receive/Heard.antt =====
-- What a controller hears of the messages that arrive, and what it prints.
use csae.Prelude.{ℕ, ◌<◌, ◌≡◌, refl, some, List, [], ◌∷◌, ◌++◌, All, ok}
use csae.Packer.{AnyMessage, header, inh, inh_res, state, state2, notify}
use csae.Packer.Print.Table.{
  IsPrintable, shown, print_any-IsTable, received-IsSendable, received-IsPrintable,
}
use csae.Message.Print.Laws.{Row, render, Table}
use csae.Memory.Word.{IsByte}
use csae.Packer.Sendable.{IsSendable, as_received}
use csae.Controller.Receive.{Callback, tell, controller_handler}

-- What the callback of the receiving side hears of a message: the method for its class, and of a
-- state message of version 2 nothing.
abbrev pub hears : {S : Type 0} → Callback S → AnyMessage → S → S
hears c (header m) s = c.on_header m s
hears c (inh m) s = c.on_inh m s
hears c (inh_res m) s = c.on_inh_res m s
hears c (state m) s = c.on_state m s
hears c (state2 m) s = s

-- The specification: the messages, each once and in order.
unfoldable pub hears_all : {S : Type 0} → Callback S → List AnyMessage → S → S
hears_all c [] s = s
hears_all c (m ∷ messages) s = hears_all c messages (hears c (as_received m) s)

-- A message whose texts fit the array of the print and, for a state message of version 1, whose
-- message id is of bytes. One of version 2 is not printed on arrival.
abbrev pub IsHeard : AnyMessage → Type 0
IsHeard (header m) = Unit {0}
IsHeard (inh m) = (m.sw_ver_len < 128) × (m.user_data_len < 128)
IsHeard (inh_res m) = Unit {0}
IsHeard (state m) = All IsByte m.message_id
IsHeard (state2 m) = Unit {0}

-- What std::cout gets for the messages, from `os` to `os'`: for each message with a method, a line
-- end and a table of the bytes that arrive.
abbrev pub IsTranscript : List ℕ → List AnyMessage → List ℕ → Type 0
IsTranscript os [] os' = os' ≡ os
IsTranscript os (state2 m ∷ messages) os' = IsTranscript os messages os'
IsTranscript os (header m ∷ messages) os' =
    (rows : List Row) × Table 0 rows (shown (header m))
    × IsTranscript ((os ++ (10 ∷ [])) ++ render rows) messages os'
IsTranscript os (inh m ∷ messages) os' =
    (rows : List Row) × Table 0 rows (shown (as_received (inh m)))
    × IsTranscript ((os ++ (10 ∷ [])) ++ render rows) messages os'
IsTranscript os (inh_res m ∷ messages) os' =
    (rows : List Row) × Table 0 rows (shown (inh_res m))
    × IsTranscript ((os ++ (10 ∷ [])) ++ render rows) messages os'
IsTranscript os (state m ∷ messages) os' =
    (rows : List Row) × Table 0 rows (shown (state m))
    × IsTranscript ((os ++ (10 ∷ [])) ++ render rows) messages os'

-- What one message adds, and that the rest of a transcript goes on behind it.
abbrev pub Adds : {S : Type 0} → Callback S → AnyMessage → List ℕ × S → Type 0
Adds c m p =
    (os : List ℕ) × (notify (some (controller_handler (some c))) (as_received m) (ok p)
      ≡ ok (os, hears c (as_received m) p.1))
    × ((rest : List AnyMessage) (os' : List ℕ)
        → IsTranscript os rest os'
        → IsTranscript p.0 (m ∷ rest) os')

pub tell-shown :
    {S : Type 0} (m : AnyMessage) (method : S → S) (p : List ℕ × S)
    → IsSendable m
    → IsPrintable m
    → (rows : List Row) × (tell m method (ok p)
        ≡ ok ((p.0 ++ (10 ∷ [])) ++ render rows, method p.1))
      × Table 0 rows (shown m)
unfolding tell
tell-shown m method p v h =
    let (rows, e, t) = print_any-IsTable (p.0 ++ (10 ∷ [])) m v h in (rows, rw e, t)

pub notify-Adds :
    {S : Type 0} (c : Callback S) (m : AnyMessage) (p : List ℕ × S)
    → IsSendable m
    → IsHeard m
    → Adds c m p
unfolding notify controller_handler
notify-Adds c (header m) p v h =
    let (rows, e, t) = tell-shown (header m) (c.on_header m) p v h in
    (_, e, λ rest os' next. (rows, t, next))
notify-Adds c (inh m) p v h =
    let m' = as_received (inh m) in
    let (rows, e, t) =
      tell-shown m' (hears c m') p (received-IsSendable (inh m) v)
        (received-IsPrintable (inh m) h) in
    (_, e, λ rest os' next. (rows, t, next))
notify-Adds c (inh_res m) p v h =
    let (rows, e, t) = tell-shown (inh_res m) (c.on_inh_res m) p v h in
    (_, e, λ rest os' next. (rows, t, next))
notify-Adds c (state m) p v h =
    let (rows, e, t) = tell-shown (state m) (c.on_state m) p v h in
    (_, e, λ rest os' next. (rows, t, next))
notify-Adds c (state2 m) p v h = (p.0, refl, λ rest os' next. next)
