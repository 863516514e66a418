-- ===== src/Client/Operations/Memory.antt =====
-- client.go: Read and Write on a PLC that keeps a memory.
use mathlib.Core.Path.{subst}
use mathlib.Core.List.{append-nil}
use goadstc.Base.{
  ℕ, zero, suc, ◌+◌, ◌≤◌, ◌<◌, ◌^◌, ◌≡◌, ◌≢◌, refl, sym, ap, ◌∙◌, ◌⊎◌, inl, inr, false, ◌&&◌, List,
  [], ◌∷◌, ◌++◌, ◌==◌, length, take, if◌then◌else◌, arith,
}
use goadstc.Go.{Result, ok, exact, bytes32, slice?, uint32?, IsU32, take-length, mod32_lem}
use goadstc.Go.Strings.{text}
use goadstc.Ams.Packet.{Packet}
use goadstc.Ads.Requests.{
  cmd_read, cmd_write, ReadRequest, WriteRequest, marshal_read, marshal_write,
}
use goadstc.Ads.Requests.Layout
use goadstc.Ads.Requests.Layout.{wire, encode, encode-wire}
use goadstc.Ads.Responses.{unmarshal_read, unmarshal_write}
use goadstc.Ads.Responses.Decode.{start, unmarshal_read-answer}
use goadstc.Metrics.{operation_started, operation_completed, sent, received}
use goadstc.Client.Operations.{
  Error, World, Session, send_request, completed, read_answered, read_sent, read, write_answered,
  write_sent, write,
}

-- A byte for every index group and index offset.
abbrev pub Memory : Type 0
Memory = ℕ → ℕ → ℕ

unfoldable pub cells : Memory → ℕ → ℕ → ℕ → List ℕ
cells m g o zero = []
cells m g o (suc n) = m g o ∷ cells m g (o + 1) n

unfoldable pub put_cell : ℕ → ℕ → ℕ → Memory → Memory
put_cell g o x m g' o' = if g' == g && o' == o then x else m g' o'

unfoldable pub store : ℕ → ℕ → List ℕ → Memory → Memory
unfolding put_cell
store g o [] m = m
store g o (x ∷ xs) m = put_cell g o x (store g (o + 1) xs m)

-- A place that `put_cell` leaves alone.
cells-put_cell :
    (g o x g' p n : ℕ) (m : Memory)
    → g' ≢ g ⊎ (o < p) ⊎ (p + n ≤ o)
    → cells (put_cell g o x m) g' p n ≡ cells m g' p n
unfolding cells put_cell
cells-put_cell g o x g' p zero m h = refl
cells-put_cell g o x g' p (suc n) m h = ground (arith, cells-put_cell g o x g' (p + 1) n m)

-- What has been stored is there, and every place beside it is as it was.
pub cells-store : (g o : ℕ) (xs : List ℕ) (m : Memory) → cells (store g o xs m) g o (length xs) ≡ xs
unfolding cells store
cells-store g o [] m = refl
cells-store g o (x ∷ xs) m = ground (
  arith,
  cells-put_cell g o x g (o + 1) (length xs) (store g (o + 1) xs m) (inr (inl (omega arith))),
  cells-store g (o + 1) xs m,
)

apart-tail :
    (g g' o p n k : ℕ)
    → g' ≢ g ⊎ (o + suc k ≤ p) ⊎ (p + n ≤ o)
    → (g' ≢ g ⊎ (o < p) ⊎ (p + n ≤ o)) × (g' ≢ g ⊎ (o + 1 + k ≤ p) ⊎ (p + n ≤ o + 1))
apart-tail g g' o p n k (inl h) = (inl h, inl h)
apart-tail g g' o p n k (inr (inl h)) = (inr (inl (omega arith)), inr (inl (omega arith)))
apart-tail g g' o p n k (inr (inr h)) = (inr (inr h), inr (inr (omega arith)))

pub cells-store_other :
    (g o : ℕ) (xs : List ℕ) (m : Memory) (g' p n : ℕ)
    → g' ≢ g ⊎ (o + length xs ≤ p) ⊎ (p + n ≤ o)
    → cells (store g o xs m) g' p n ≡ cells m g' p n
unfolding store
cells-store_other g o [] m g' p n h = refl
cells-store_other g o (x ∷ xs) m g' p n h =
    let (here, there) = apart-tail g g' o p n (length xs) h in
    cells-put_cell g o x g' p n (store g (o + 1) xs m) here
    ∙ cells-store_other g (o + 1) xs m g' p n there

length-cells : (m : Memory) (g o n : ℕ) → length (cells m g o n) ≡ n
unfolding cells
length-cells m g o zero = refl
length-cells m g o (suc n) = ap suc (length-cells m g (o + 1) n)

-- The PLC keeps a memory, as the ADS specification says: a Read request is answered with the result 0,
-- the length and the bytes that stand at the place, a Write request with the result 0 after its bytes
-- are stored. `mem` is the memory in a state of the PLC.
pub record Serves {S : Type 0} (c : Session S) (mem : S → Memory) : Type 0 where
  pub reads :
      (g o n : ℕ) (s : S)
      → IsU32 g
      → IsU32 o
      → 8 + n < 2 ^ 32
      → (p : Packet) × (s' : S) × (c.send cmd_read
            (wire (Layout.read (record { index_group = g; index_offset = o; length = n })))
            s
          ≡ (inr p, s'))
        × (p.body ≡ exact (start 0 n ++ cells (mem s) g o n))
        × (mem s' ≡ mem s)
  pub writes :
      (g o : ℕ) (xs : List ℕ) (s : S)
      → IsU32 g
      → IsU32 o
      → length xs < 2 ^ 32
      → (p : Packet) × (s' : S) × (c.send cmd_write
            (wire (
              Layout.write
                (record { index_group = g; index_offset = o; length = length xs; body = xs })))
            s
          ≡ (inr p, s'))
        × (p.body ≡ exact (bytes32 0))
        × (mem s' ≡ store g o xs (mem s))

unmarshal_read-whole :
    (n : ℕ) (xs : List ℕ)
    → length xs ≡ n
    → 8 + n < 2 ^ 32
    → unmarshal_read (exact (start 0 n ++ xs)) ≡ ok (record { result = 0; length = n; body = xs })
unmarshal_read-whole n xs e h =
    unmarshal_read-answer 0 n xs [] (omega arith) (omega arith)
    ∙ rw (append-nil xs) (ground (arith, take-length xs, ap (λ k. take k xs) e))

unmarshal_write-zero : unmarshal_write (exact (bytes32 0)) ≡ ok 0
unfolding unmarshal_write bytes32 slice? uint32?
unmarshal_write-zero = refl

marshal_read-wire : (r : ReadRequest) → marshal_read r ≡ ok (wire (Layout.read r))
marshal_read-wire r = unfold encode in encode-wire (Layout.read r)

marshal_write-wire : (r : WriteRequest) → marshal_write r ≡ ok (wire (Layout.write r))
marshal_write-wire r = unfold encode in encode-wire (Layout.write r)

module _ {S : Type 0} (c : Session S) (g o : ℕ) (w : World S) (p : Packet) (s' : S) where
  -- Read with an answer that holds the bytes `xs`.
  read_lem :
      (n : ℕ) (xs : List ℕ)
      → length xs ≡ n
      → 8 + n < 2 ^ 32
      → c.send cmd_read
          (wire (Layout.read (record { index_group = g; index_offset = o; length = n })))
          w.plc
        ≡ (inr p, s')
      → p.body ≡ exact (start 0 n ++ xs)
      → read c g o n w ≡ (
        ok xs,
        record w {
          plc = s';
          events =
              ((w.events ++ (operation_started (text "read") ∷ [])) ++ (received (length xs) ∷ []))
              ++ (operation_completed (text "read") (c.elapsed s') false ∷ []);
        },
      )
  unfolding read send_request read_sent read_answered completed
  read_lem n xs e small reply body =
      let decoded : unmarshal_read p.body ≡ ok (record { result = 0; length = n; body = xs }) =
        ap unmarshal_read body ∙ unmarshal_read-whole n xs e small in
      rw (marshal_read-wire (record { index_group = g; index_offset = o; length = n }))
        (rw reply (rw decoded refl))

  -- Write with an answer that holds the result 0.
  write_lem :
      (xs : List ℕ)
      → length xs < 2 ^ 32
      → c.send cmd_write
          (wire (
            Layout.write
              (record { index_group = g; index_offset = o; length = length xs; body = xs })))
          w.plc
        ≡ (inr p, s')
      → p.body ≡ exact (bytes32 0)
      → write c g o xs w ≡ (
        ok tt,
        record w {
          plc = s';
          events =
              ((w.events ++ (operation_started (text "write") ∷ [])) ++ (sent (length xs) ∷ []))
              ++ (operation_completed (text "write") (c.elapsed s') false ∷ []);
        },
      )
  unfolding write send_request write_sent write_answered completed
  write_lem xs small reply body =
      let decoded : unmarshal_write p.body ≡ ok 0 =
        ap unmarshal_write body ∙ unmarshal_write-zero in
      rw (mod32_lem (length xs) small) (
        rw
          (marshal_write-wire
            (record { index_group = g; index_offset = o; length = length xs; body = xs }))
          (rw reply (rw decoded refl)))

-- The effect of a call as a step of the memory: what it returns, the memory behind it, and that the
-- caches of the client stay.
pub record Refines {S A : Type 0} (mem : S → Memory) (w : World S) (r : Result Error A × World S)
    (a : A) (m : Memory) : Type 0 where
  pub result : r.0 ≡ ok a
  pub memory : mem r.1.plc ≡ m
  pub client : r.1.client ≡ w.client

-- On a PLC that keeps a memory, Read returns what the memory holds and changes nothing, and Write
-- stores its bytes: the two methods, through their encoders, decoders, error paths and metrics, are
-- the two operations of the memory, for places and lengths in the range of a uint32 with room for
-- the eight bytes in front of an answer.
pub read-write-Refines :
    {S : Type 0} (c : Session S) (mem : S → Memory) (g o n : ℕ) (xs : List ℕ) (w : World S)
    → Serves c mem
    → IsU32 g
    → IsU32 o
    → 8 + n < 2 ^ 32
    → length xs < 2 ^ 32
    → Refines mem w (read c g o n w) (cells (mem w.plc) g o n) (mem w.plc)
      × Refines mem w (write c g o xs w) tt (store g o xs (mem w.plc))
read-write-Refines c mem g o n xs w serves hg ho hn hx = (reading, writing)
  where
    reading : Refines mem w (read c g o n w) (cells (mem w.plc) g o n) (mem w.plc)
    reading =
        let (p, s', reply, body, same) = serves.reads g o n w.plc hg ho hn in
        let cs = cells (mem w.plc) g o n in
        let size : length cs ≡ n = length-cells (mem w.plc) g o n in
        let e = read_lem c g o w p s' n cs size hn reply body in
        subst (λ r. Refines mem w r cs (mem w.plc)) (sym e)
          (record { result = refl; memory = same; client = refl })

    writing : Refines mem w (write c g o xs w) tt (store g o xs (mem w.plc))
    writing =
        let (p, s', reply, body, stored) = serves.writes g o xs w.plc hg ho hx in
        let e = write_lem c g o w p s' xs hx reply body in
        subst (λ r. Refines mem w r tt (store g o xs (mem w.plc))) (sym e)
          (record { result = refl; memory = stored; client = refl })
