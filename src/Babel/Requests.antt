-- ===== src/Babel/Requests.antt =====
-- The table of pending sequence number requests in proto/babel/babel.c.
use bird.Common.{
  ℕ, suc, ◌+◌, ◌*◌, ◌==◌, Bool, true, false, ◌&&◌, ◌||◌, not, List, [], ◌∷◌, ◌++◌, Option, none,
  some, if◌then◌else◌, ltb, ◌!=◌, leb,
}
use bird.Common.Word.{◌<<◌}
use bird.Babel.{SeqnoRequest, Event, send_seqno_request, ge_mod64k}

-- Times are in microseconds.
abbrev pub second : ℕ
second = 1000000

-- The list without the first request of the router, and that one.
unfoldable pub take_request : ℕ → List SeqnoRequest → Option SeqnoRequest × List SeqnoRequest
take_request id [] = (none, [])
take_request id (q ∷ qs) =
    let rest = take_request id qs in
    if q.router_id == id then (some q, qs) else (rest.0, q ∷ rest.1)

abbrev pub is_some : Option ℕ → Bool
is_some none = false
is_some (some n) = true

-- The request that babel_add_seqno_request fills in and sends; `forwarded` is set before.
unfoldable pub fill_request : ℕ → (id seqno hop_count suppress : ℕ) → Bool → SeqnoRequest
fill_request now id seqno hop_count suppress forwarded = record {
  router_id = id;
  seqno = seqno;
  forwarded = forwarded;
  hop_count = if hop_count == 0 then 255 else hop_count;
  count = 0;
  expires = now + (if forwarded then 10 * second else 2 * second);
  dup_suppress_time = if forwarded then now + second else suppress;
}

unfoldable pub babel_add_seqno_request :
    ℕ → List SeqnoRequest → (id seqno hop_count : ℕ) → Option ℕ → List SeqnoRequest × List Event
babel_add_seqno_request now requests id seqno hop_count target =
    let found = take_request id requests in
    elim found.0 [
      | none ↦
          let q = fill_request now id seqno hop_count 0 (is_some target) in
          (requests ++ q ∷ [], send_seqno_request q target ∷ [])
      | some sr ↦
          let forwarded = sr.forwarded && is_some target in
          let q = fill_request now id seqno hop_count sr.dup_suppress_time forwarded in
          if ge_mod64k sr.seqno seqno
            && (not sr.forwarded || (is_some target && ltb now sr.dup_suppress_time))
          then (requests, [])
          else (found.1 ++ q ∷ [], send_seqno_request q target ∷ [])
    ]

-- The result says whether a request was found, which is then removed.
unfoldable pub babel_satisfy_seqno_request :
    List SeqnoRequest → (id seqno : ℕ) → Bool × List SeqnoRequest
babel_satisfy_seqno_request [] id seqno = (false, [])
babel_satisfy_seqno_request (q ∷ qs) id seqno =
    let rest = babel_satisfy_seqno_request qs id seqno in
    if q.router_id == id && ge_mod64k seqno q.seqno then (true, qs) else (rest.0, q ∷ rest.1)

-- An expired request of one's own is sent again up to four times; what is left stays.
unfoldable pub babel_expire_requests : ℕ → List SeqnoRequest → List SeqnoRequest × List Event
babel_expire_requests now [] = ([], [])
babel_expire_requests now (q ∷ qs) =
    let rest = babel_expire_requests now qs in
    let again : SeqnoRequest = record q {
      count = suc q.count;
      expires = q.expires + ((2 * second) << suc q.count);
    } in
    if q.expires != 0 && leb q.expires now
    then (if not q.forwarded && ltb q.count 4
        then (again ∷ rest.0, send_seqno_request again none ∷ rest.1)
        else rest)
    else (q ∷ rest.0, rest.1)
