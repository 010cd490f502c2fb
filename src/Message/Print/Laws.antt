-- ===== src/Message/Print/Laws.antt =====
-- The lines of a print as a table over bytes: each shows the bytes at its offset.
use mathlib.Core.Path.{subst}
use csae.Prelude.{
  ℕ, zero, suc, ◌+◌, ◌≡◌, refl, sym, ap, ◌∙◌, List, [], ◌∷◌, ◌++◌, append_assoc, append-nil, arith,
  length, length-append, length-replicate, Run, ok, fault, bind,
}
use native.Mathlib.Nat.{add-zero, zero-add}
use csae.Message.Print.{line, Printing, Printer, ◌>>◌, skip, start, finish}
use csae.Message.Print.Digits.{value, of_be}
use csae.Util.Hex.RoundTrip.{digits}

-- The text of a C string, up to its first NUL.
abbrev pub until_nul : List ℕ → List ℕ
until_nul [] = []
until_nul (zero ∷ s) = []
until_nul (suc c ∷ s) = suc c ∷ until_nul s

pub record Row : Type 0 where
  pub offset : ℕ
  pub digits : List ℕ
  pub label : List ℕ
  pub text : List ℕ

-- What a line says of the bytes of its field.
pub data Shows (r : Row) (bs : List ℕ) : Type 0 where
  -- The number that these bytes are, highest first, in hexadecimal and decimal digits.
  numeric : value 16 0 r.digits ≡ of_be bs → value 10 0 r.text ≡ of_be bs → Shows r bs
  -- Two digits for each byte, and the bytes up to the first NUL.
  textual : r.digits ≡ digits bs → r.text ≡ until_nul bs → Shows r bs
  -- The number in hexadecimal digits, twice.
  identifier : value 16 0 r.digits ≡ of_be bs → r.text ≡ r.digits → Shows r bs

-- The lines as they are printed.
abbrev pub render : List Row → List ℕ
render [] = []
render (r ∷ rows) = line r.offset r.digits r.label r.text ++ render rows

-- From `offset` on each row stands at the offset of its bytes, and shows them.
abbrev pub Table : ℕ → List Row → List ℕ → Type 0
Table offset [] bytes = bytes ≡ []
Table offset (r ∷ rows) bytes =
    (bs : List ℕ) × (rest : List ℕ) × (bytes ≡ bs ++ rest)
    × (r.offset ≡ offset)
    × Shows r bs
    × Table (offset + length bs) rows rest

pub Table-append :
    (offset : ℕ) (rows rows' : List Row) (bytes bytes' : List ℕ)
    → Table offset rows bytes
    → Table (offset + length bytes) rows' bytes'
    → Table offset (rows ++ rows') (bytes ++ bytes')
Table-append offset [] rows' bytes bytes' t t' =
    let here = subst (λ b. Table (offset + length b) rows' bytes') t t' in
    rw t (subst (λ o. Table o rows' bytes') (add-zero offset) here)
Table-append offset (r ∷ rows) rows' bytes bytes' (bs, rest, e, place, shows, t) t' =
    let next : offset + length bytes ≡ offset + length bs + length rest =
      omega (arith, ap length e, length-append bs rest) in
    (
      bs,
      rest ++ bytes',
      rw (e, append_assoc),
      place,
      shows,
      Table-append (offset + length bs) rows rows' rest bytes' t
          (subst (λ o. Table o rows' bytes') next t'),
    )

pub render-append : (rows rows' : List Row) → render (rows ++ rows') ≡ render rows ++ render rows'
render-append [] rows' = refl
render-append (r ∷ rows) rows' = rw (render-append rows rows', append_assoc)

-- What a printer leaves that has printed a table of `bs`.
pub record Printed (p : Printer) (s : Printing) (bs : List ℕ) : Type 0 where
  pub rows : List Row
  pub after : Printing
  pub runs : p s ≡ ok after
  pub os_lem : after.os ≡ s.os ++ render rows
  pub offset_lem : after.offset ≡ s.offset + length bs
  pub str_lem : length after.str ≡ length s.str
  pub table : Table s.offset rows bs

-- With `char str[256]`, `p` prints a table of the bytes `bs`, whatever was printed before.
pub record Prints (p : Printer) (bs : List ℕ) : Type 0 where
  pub apply : (s : Printing) → length s.str ≡ 256 → Printed p s bs

pub seq-Prints :
    {p q : Printer} {bs cs : List ℕ} → Prints p bs → Prints q cs → Prints (p >> q) (bs ++ cs)
unfolding ◌>>◌
seq-Prints {bs} {cs} hp hq = record {
  apply = λ s room.
      let x = hp.apply s room in
      let y = hq.apply x.after (x.str_lem ∙ room) in
      record {
        rows = x.rows ++ y.rows;
        after = y.after;
        runs = rw x.runs y.runs;
        os_lem = rw (y.os_lem, x.os_lem, append_assoc, render-append);
        offset_lem = rw length-append (omega (arith, x.offset_lem, y.offset_lem));
        str_lem = y.str_lem ∙ x.str_lem;
        table =
            Table-append s.offset x.rows y.rows bs cs x.table
              (subst (λ o. Table o y.rows cs) x.offset_lem y.table);
      };
}

pub skip-Prints : Prints skip []
unfolding skip
skip-Prints = record {
  apply = λ s room. record {
    rows = [];
    after = s;
    runs = refl;
    os_lem = sym (append-nil s.os);
    offset_lem = sym (add-zero s.offset);
    str_lem = refl;
    table = refl;
  };
}

-- With `char str[256]`, `p` faults.
pub record Faults (p : Printer) : Type 0 where
  pub apply : (s : Printing) → length s.str ≡ 256 → p s ≡ fault

pub first-Faults : {p : Printer} (q : Printer) → Faults p → Faults (p >> q)
unfolding ◌>>◌
first-Faults q h = record { apply = λ s room. rw (h.apply s room) }

pub then-Faults : {p q : Printer} {bs : List ℕ} → Prints p bs → Faults q → Faults (p >> q)
unfolding ◌>>◌
then-Faults hp h = record {
  apply = λ s room. let x = hp.apply s room in rw x.runs (h.apply x.after (x.str_lem ∙ room));
}

-- A whole `operator<<` returns, and puts the lines of a table of `bs` behind what the stream holds.
abbrev pub IsTable : Run (List ℕ) → List ℕ → List ℕ → Type 0
IsTable r os bs = (rows : List Row) × (r ≡ ok (os ++ render rows)) × Table 0 rows bs

pub start-Prints :
    {p : Printer} {bs : List ℕ} (os : List ℕ) (offset : ℕ)
    → Prints p bs
    → (rows : List Row) × (finish (p (start os offset)) ≡ ok (os ++ render rows))
      × Table offset rows bs
unfolding start
start-Prints os offset h =
    let x = h.apply (start os offset) (length-replicate {A = ℕ} 256 0) in
    (x.rows, rw (x.runs, x.os_lem), x.table)

-- A derived class prints its base first, and its own fields from an offset on.
pub behind-Prints :
    {r : Run (List ℕ)} {p : Printer} {bs cs : List ℕ} {offset : ℕ} (os : List ℕ)
    → IsTable r os bs
    → offset ≡ length bs
    → Prints p cs
    → IsTable (bind r (λ os'. finish (p (start os' offset)))) os (bs ++ cs)
behind-Prints {bs} {cs} {offset} os (rows, e, t) next h =
    let (rows', e', t') = start-Prints (os ++ render rows) offset h in
    (
      rows ++ rows',
      rw (e, e', render-append, append_assoc),
      Table-append 0 rows rows' bs cs t
          (subst (λ o. Table o rows' cs) (next ∙ sym (zero-add (length bs))) t'),
    )

pub behind-Faults :
    {r : Run (List ℕ)} {p : Printer} {bs : List ℕ} (os : List ℕ) (offset : ℕ)
    → IsTable r os bs
    → Faults p
    → bind r (λ os'. finish (p (start os' offset))) ≡ fault
unfolding start
behind-Faults os offset (rows, e, t) h =
    rw (e, h.apply (start (os ++ render rows) offset) (length-replicate {A = ℕ} 256 0))
