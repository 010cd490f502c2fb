-- ===== src/Controller/Receive/Safety.antt =====
-- The receive thread and the memory that it owns.
use csae.Prelude.{
  ℕ, zero, suc, ◌+◌, ◌≤◌, ◌≡◌, refl, ◌⊎◌, inl, inr, ◌∙◌, true, false, Option, none, some, ◌++◌,
  List, [], ◌∷◌, arith, length, replicate, length-replicate, All, le→leb, Run, ok, fault,
}
use csae.Memory.Word.{IsByte}
use csae.Memory.Write.{put_front, splice, put_bytes}
use csae.Memory.Write.Laws.{length-splice}
use csae.Packer.{AnyMessage, header, inh, inh_res, state, state2, Handler, Storage, notify, unpack}
use csae.Packer.Print.{print_any}
use csae.Packer.Print.Calm.{IsCalm, unpack-IsCalm}
use csae.Packer.Notify.{unpack-told}
use csae.Message.Print.Total.{print_header-Returns, print_inh_res-Returns}
use csae.Packer.Safety.{Returns, IsState2, unpack-Returns}
use csae.Controller.Receive.{
  Callback, call, tell, controller_handler, Received, bytes, failed, receive, socket_recv_thread,
}

-- `recv` writes bytes, and no more than it was asked for.
abbrev pub IsReceived : Received → Type 0
IsReceived (bytes bs) = All IsByte bs × (length bs ≤ 4096)
IsReceived (failed retry) = Unit {0}

-- An announcement or a report whose print touches memory that is not its own.
abbrev pub IsLoud : AnyMessage → Type 0
IsLoud (inh m) = (os : List ℕ) × (print_any os (inh m) ≡ fault)
IsLoud (state m) = (os : List ℕ) × (print_any os (state m) ≡ fault)
IsLoud _ = ⊥

-- `unpack` over `buf` makes such a message.
abbrev pub MakesLoud : {T : Type 0} → Storage → Handler (Run T) → List ℕ → ℕ → Type 0
MakesLoud {T} raw handler buf size =
    (m : AnyMessage) × (s : T) × (after : Run T) × (unpack raw (some buf) size (some handler) (ok s)
      ≡ ok (some m, after))
    × IsLoud m

-- At some call of `unpack` the buffer starts with a state message of version 2, or the message that
-- is made is loud.
abbrev pub Meets : {T : Type 0} → (ℕ → Storage) → Handler (Run T) → List Received → List ℕ → Type 0
Meets raw handler [] buf = ⊥
Meets raw handler (bytes [] ∷ rest) buf = ⊥
Meets raw handler (bytes (b ∷ bs) ∷ rest) buf =
    (IsState2 (splice 0 (b ∷ bs) buf)
      ⊎ MakesLoud (raw (length rest)) handler (splice 0 (b ∷ bs) buf) (length (b ∷ bs)))
    ⊎ Meets raw handler rest (splice 0 (b ∷ bs) buf)
Meets raw handler (failed true ∷ rest) buf = Meets raw handler rest buf
Meets raw handler (failed false ∷ rest) buf = ⊥

put_front-IsByte :
    (bs buf : List ℕ) → All IsByte bs → All IsByte buf → All IsByte (put_front bs buf)
unfolding put_front
put_front-IsByte [] buf hb h = h
put_front-IsByte (b ∷ bs) [] hb h = tt
put_front-IsByte (b ∷ bs) (x ∷ buf) hb h = (hb.0, put_front-IsByte bs buf hb.1 h.1)

splice-IsByte : (bs buf : List ℕ) → All IsByte bs → All IsByte buf → All IsByte (splice 0 bs buf)
unfolding splice
splice-IsByte bs buf hb h = put_front-IsByte bs buf hb h

replicate-IsByte : (n : ℕ) → All IsByte (replicate n 0)
replicate-IsByte zero = tt
replicate-IsByte (suc n) = (omega arith, replicate-IsByte n)

pub put_bytes_fits :
    (bs buf : List ℕ)
    → 0 + length bs ≤ length buf
    → put_bytes bs buf 0 ≡ ok (splice 0 bs buf, 0 + length bs)
unfolding put_bytes
put_bytes_fits bs buf h = rw (le→leb (0 + length bs) (length buf) h)

module _ {S : Type 0} (callback : Option (Callback S)) where
  told_once :
      (m : AnyMessage) (method : S → S) (p : List ℕ × S)
      → Returns (print_any (p.0 ++ (10 ∷ [])) m)
      → Returns (tell m method (ok p))
  unfolding tell
  told_once m method p (os, e) = ((os, method p.1), rw e)

  loud_or_told :
      (m : AnyMessage) (method : S → S) (p : List ℕ × S) (r : Run (List ℕ))
      → print_any (p.0 ++ (10 ∷ [])) m ≡ r
      → Returns (tell m method (ok p)) ⊎ (print_any (p.0 ++ (10 ∷ [])) m ≡ fault)
  loud_or_told m method p (ok os) e = inl (told_once m method p (os, e))
  loud_or_told m method p fault e = inr e

  -- What the handler does with a message that `unpack` has made.
  handled :
      (m : AnyMessage) (p : List ℕ × S)
      → IsCalm m
      → Returns (notify (some (controller_handler callback)) m (ok p)) ⊎ IsLoud m
  unfolding notify controller_handler print_any
  handled (header m) p calm =
      inl (told_once (header m) (call callback (λ c. c.on_header m)) p (print_header-Returns _ m))
  handled (inh_res m) p calm = inl (
      told_once (inh_res m) (call callback (λ c. c.on_inh_res m)) p
        (print_inh_res-Returns _ m calm))
  handled (state2 m) p calm = inl (p, refl)
  handled (inh m) p calm = elim (loud_or_told (inh m) (call callback (λ c. c.on_inh m)) p _ refl) [
    | inl told ↦ inl told
    | inr loud ↦ inr (p.0 ++ (10 ∷ []), loud)
  ]
  handled (state m) p calm =
      elim (loud_or_told (state m) (call callback (λ c. c.on_state m)) p _ refl) [
        | inl told ↦ inl told
        | inr loud ↦ inr (p.0 ++ (10 ∷ []), loud)
      ]

  unpack_step :
      (raw : Storage) (buf : List ℕ) (size : ℕ) (p : List ℕ × S) (r : Option AnyMessage)
      (after : Run (List ℕ × S))
      → All IsByte buf
      → 2138 ≤ length buf
      → length raw.for_inh_res.vehicle_id ≡ 8
      → unpack raw (some buf) size (some (controller_handler callback)) (ok p) ≡ ok (r, after)
      → Returns after ⊎ MakesLoud raw (controller_handler callback) buf size
  unpack_step raw buf size p none after b long eight e =
      inl (
        p,
        unpack-told (some (controller_handler callback)) (ok p) raw (some buf) size none after e,
      )
  unpack_step raw buf size p (some m) after b long eight e =
      let handler = some (controller_handler callback) in
      let calm = unpack-IsCalm handler (ok p) buf b long raw eight size m after e in
      let same = unpack-told handler (ok p) raw (some buf) size (some m) after e in
      elim (handled m p calm) [
        | inl (q, returns) ↦ inl (q, same ∙ returns)
        | inr loud ↦ inr (m, p, after, e, loud)
      ]

module _ {S : Type 0} (raw : ℕ → Storage) (callback : Option (Callback S)) where
  receive-Returns :
      (received : List Received) (buf : List ℕ) (s : List ℕ × S)
      → ((n : ℕ) → length (raw n).for_inh_res.vehicle_id ≡ 8)
      → All IsReceived received
      → All IsByte buf
      → length buf ≡ 4096
      → Returns (receive raw (controller_handler callback) received buf s)
        ⊎ Meets raw (controller_handler callback) received buf
  unfolding receive
  receive-Returns [] buf s eight r b l = inl (s, refl)
  receive-Returns (bytes [] ∷ rest) buf s eight r b l = inl (s, refl)
  receive-Returns (failed true ∷ rest) buf s eight r b l = receive-Returns rest buf s eight r.1 b l
  receive-Returns (failed false ∷ rest) buf s eight r b l = inl (s, refl)
  receive-Returns (bytes (c ∷ cs) ∷ rest) buf s eight ((hb, short), more) b l =
      let buf' = splice 0 (c ∷ cs) buf in
      let room : 0 + length (c ∷ cs) ≤ length buf = omega arith in
      let same : length buf' ≡ length buf = length-splice 0 (c ∷ cs) buf room in
      let bytes' = splice-IsByte (c ∷ cs) buf hb b in
      let size = length (c ∷ cs) in
      elim (unpack-Returns buf' bytes' (omega arith) (raw (length rest)) size
        (some (controller_handler callback)) (ok s)) [
          | inl (r, e) ↦
              elim (unpack_step callback (raw (length rest)) buf' size s r.0 r.1 bytes'
                (omega arith) (eight (length rest)) e) [
                  | inl (s', e') ↦
                      elim (receive-Returns rest buf' s' eight more bytes' (omega arith)) [
                        | inl (after, e'') ↦
                            inl (after, rw (put_bytes_fits (c ∷ cs) buf room, e) (rw e' e''))
                        | inr later ↦ inr (inr later)
                      ]
                  | inr loud ↦ inr (inl (inr loud))
                ]
          | inr now ↦ inr (inl (inl now))
        ]

-- If each successful `recv` gives bytes, at most 4096 of them, and the storage of a
-- CLOUD2VEH_INH_RES has eight bytes for its vehicle id, the receive thread returns from any list of
-- results of `recv` without touching memory outside its buffer or the arrays of the prints, with and
-- without a callback, unless at some call of `unpack` the buffer starts with a state message of
-- version 2, or `unpack` makes a VEH2CLOUD_INH or a VEH2CLOUD_STATE of version 1 whose print touches
-- memory that is not its own. Headers and CLOUD2VEH_INH_RES messages, whole or cut off, are harmless.
pub socket_recv_thread-Returns :
    {S : Type 0} (raw : ℕ → Storage) (callback : Option (Callback S)) (received : List Received)
    (s : List ℕ × S)
    → ((n : ℕ) → length (raw n).for_inh_res.vehicle_id ≡ 8)
    → All IsReceived received
    → Returns (socket_recv_thread raw callback received s)
      ⊎ Meets raw (controller_handler callback) received (replicate 4096 0)
unfolding socket_recv_thread
socket_recv_thread-Returns raw callback received s eight r =
    receive-Returns raw callback received (replicate 4096 0) s eight r (replicate-IsByte 4096)
      (length-replicate {A = ℕ} 4096 0)
