-- ===== src/Http/Parser/Chunks.antt =====
-- request_parser.hpp: a head that arrives in several reads is parsed as if it came in one.
use clean_architecture_cpp.Base.{◌≡◌, refl, List, [], ◌∷◌, ◌++◌, Text, arith}
use clean_architecture_cpp.Http.Message.{Request}
use clean_architecture_cpp.Http.Parser.{State, Parsed, ResultType, indeterminate, consume, parse}

-- The next read goes on from what the last one left, unless that one had the verdict.
abbrev pub resume_by : ResultType → Parsed → Text → Parsed
resume_by indeterminate p bytes = parse p.state p.request bytes
resume_by _ p bytes = record p { rest = p.rest ++ bytes }

abbrev pub resume : Parsed → Text → Parsed
resume p bytes = resume_by p.result p bytes

-- Parsing two reads one after the other, the second from the state and the request that the first
-- left, gives the verdict, the rest, the state and the request of parsing them as one.
pub parse-append :
    (s : State) (req : Request) (xs ys : Text) → parse s req (xs ++ ys) ≡ resume (parse s req xs) ys
unfolding parse
parse-append s req [] ys = refl
parse-append s req (c ∷ xs) ys =
    let (result, next, changed) = consume s req c in ground (arith, parse-append next changed xs ys)

-- Feeding the reads of a connection to the parser, until one has the verdict.
unfoldable pub feed : State → Request → List Text → Parsed
unfolding parse
feed s req [] = parse s req []
feed s req (xs ∷ reads) =
    let p = parse s req xs in elim p.result [ indeterminate ↦ feed p.state p.request reads | _ ↦ p ]

abbrev pub join : List Text → Text
join [] = []
join (xs ∷ reads) = xs ++ join reads

-- However a head is cut into reads, the verdict, the parser's state and the request are those of
-- parsing it whole.
pub feed-join :
    (s : State) (req : Request) (reads : List Text)
    → ((feed s req reads).result ≡ (parse s req (join reads)).result)
      × ((feed s req reads).state ≡ (parse s req (join reads)).state)
      × ((feed s req reads).request ≡ (parse s req (join reads)).request)
unfolding feed
feed-join s req [] = (refl, refl, refl)
feed-join s req (xs ∷ reads) =
    let p = parse s req xs in
    ground (arith, parse-append s req xs (join reads), feed-join p.state p.request reads)
