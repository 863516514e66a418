-- ===== src/Tests/Structs.antt =====
-- Runs of client_structs.go and client_auto.go on a struct of two fields.
use goadstc.Base.{
  inr, ◌++◌, replicate, ◌≢◌, ℕ, ◌≡◌, refl, false, none, List, [], ◌∷◌, length, get_elem?, arith,
}
use mathlib.Core.Path.{subst}
use goadstc.Ams.Packet.{Packet, new_request_packet}
use goadstc.Ads.Requests.{cmd_read_write}
use goadstc.Ads.Responses.Decode.{start}
use goadstc.Client.Operations.{Session, World}
use goadstc.Tests.Frames.{plc, pc}
use goadstc.Tests.Client.{new_client}
use goadstc.Go.{exact, panic, ok, bytes16, copy}
use goadstc.Go.Strings.{text}
use goadstc.Symbols.Types.{TypeInfo, type_info, Fields, no_fields, field}
use goadstc.Client.Access.{find_field}
use goadstc.Client.Values.{Value, Floats, encode_symbol_value}
use goadstc.Client.Structs.{ParsedFields, no_values, parse_fields}
use goadstc.Client.Structs.Total.{get_value, last_field, Shows, parse_fields-Shows}
use goadstc.Client.Structs.Write.{
  modify_fields, modify_field, put_field, write_between, IsApart, modify_fields-frame,
}
use goadstc.Client.Types.{fetch_type_info_from_plc}
use goadstc.Client.Types.Safety.{Sized, fetch_type_info_from_plc-ne-panic}

abbrev word : TypeInfo
word = type_info (text "WORD") 18 2 [] false false no_fields []

-- A byte of padding stands between the fields.
abbrev two_words : Fields
two_words = field (text "a") 0 word 0 0 (field (text "b") 3 word 0 0 no_fields)

abbrev raw : List ℕ
raw = 1 ∷ 2 ∷ 3 ∷ 4 ∷ 5 ∷ []

parse_fields-Shows_example :
    (result : ParsedFields) × (parse_fields raw two_words no_values ≡ ok result)
    × ((name : List ℕ) → Shows raw (get_value name result) none (last_field 5 name two_words))
parse_fields-Shows_example = parse_fields-Shows raw two_words (omega arith)

abbrev no_floats : Floats
no_floats = record { whole = λ n. none; narrow = λ n. n }

abbrev new_b : List (List ℕ × Value)
new_b = (text "b", Value.uint16 263) ∷ []

written : modify_fields no_floats two_words new_b raw ≡ ok (1 ∷ 2 ∷ 3 ∷ 7 ∷ 1 ∷ [])
unfolding modify_fields modify_field put_field write_between find_field encode_symbol_value copy
    bytes16
written = refl

modify_fields-frame_example :
    (length {A = ℕ} (1 ∷ 2 ∷ 3 ∷ 7 ∷ 1 ∷ []) ≡ length raw)
    × ((i : ℕ) → IsApart two_words new_b i → get_elem? (1 ∷ 2 ∷ 3 ∷ 7 ∷ 1 ∷ []) i ≡ get_elem? raw i)
modify_fields-frame_example =
    modify_fields-frame no_floats two_words new_b raw (1 ∷ 2 ∷ 3 ∷ 7 ∷ 1 ∷ []) written

-- An answer that speaks of many fields and holds none of them.
abbrev many_fields : Packet
many_fields = new_request_packet pc 32905 plc 851 9 7 (exact (start 0 60 ++ replicate 60 255))

abbrev one_answer : Session (Unit {0})
one_answer = record {
  send = λ command xs s. (inr many_fields, s);
  elapsed = λ s. 1000;
  closed_at = 1;
  failed_at = 2;
  address = 3;
}

abbrev at_first : World (Unit {0})
at_first = record { plc = tt; client = new_client; events = [] }

many_fields-Sized :
    (xs : List ℕ) (before after : Unit {0}) (p : Packet)
    → one_answer.send cmd_read_write xs before ≡ (inr p, after)
    → Sized p.body
unfolding new_request_packet
many_fields-Sized xs before after p e =
    let same : many_fields ≡ p = cc e in
    subst (λ q. Sized q.body) same
      (inr (0, 60, replicate 60 255, refl, omega arith, omega arith, refl))

fetch_type_info_from_plc-ne-panic_example :
    (fetch_type_info_from_plc one_answer 3 (text "T") at_first).0 ≢ panic
fetch_type_info_from_plc-ne-panic_example =
    fetch_type_info_from_plc-ne-panic one_answer many_fields-Sized 3 (text "T") at_first
