-- ===== src/Tests/Sessions.antt =====
-- A connection with one command, which answers with the number of the request.
use mathlib.Core.List.{flatten}
use throttr.Prelude.{
  ℕ, ◌+◌, List, [], ◌∷◌, ◌++◌, true, false, some, ◌≡◌, refl, arith, length, replicate,
  length-replicate, drop,
}
use throttr.Circular.{CircularBuffer}
use throttr.Circular.ListBuffer.{list_buffer, push}
use throttr.Messages.{get_message_size, message_types, message_size, keyed_size, install, apply_to}
use throttr.Messages.Stable.{message_types-IsStable}
use throttr.Connection.{
  waits, max_length, span, on_read, received, process, try_process_next, compact_buffer,
  compact_buffer_if_needed, do_read,
}
use throttr.Connection.Split.{split_all}
use throttr.Connection.Reads.{reads}
use throttr.Writes.{on_send, on_write, on_write_error, write_next}
use throttr.Writes.Order.{IsWriter}
use throttr.Session.{
  Session, Event, arrives, breaks, runs, written, fails, delivers, opened, start, pick, call_all,
  on_arrival, run_handler, occur, occur_all, handed, AllInOrder,
}
use throttr.Session.Order.{sent_or_waiting, occur_all-handed}
use throttr.Session.Stream.{chunks, start-call_all}
use throttr.Session.Draining.{drain, drain_answers}
use throttr.Session.Failing.{AllCanOccur, fails_silent, breaks_silent}
use throttr.Entry.{EntryWrapper}
use throttr.State.{State}
use throttr.Storage.ListStorage.{list_storage}
use throttr.Storage.Views.{view}
use throttr.Query.{Byte}
use throttr.Server.Requests.{Request, queries, updates}
use throttr.Protocol.{quota, decrease}
use throttr.Session.Serving.{requests_at}
use throttr.Session.Sharing.{
  Served, own_of, others_of, replay_own, Happening, own, other, Client, events_of, call_on_storage,
}
use throttr.Session.History.{start-replay_own}
use throttr.Tests.Data.{ip, codes, headers, headers-IsLayout, holding, two_items}
use throttr.Tests.Reading.{size, chunk}

abbrev call : ℕ → List ℕ → List ℕ × ℕ
call st view = (st ∷ [], st + 1)

abbrev queue : CircularBuffer ℕ
queue = list_buffer

abbrev array : List ℕ
array = replicate 8096 0

abbrev fresh : Session ℕ ℕ
fresh = start (opened 7 array)

-- Two requests in two chunks; the first response is written.
abbrev two_chunks : List (Event ℕ ℕ)
two_chunks = arrives chunk ∷ runs 0 ∷ written ∷ arrives (99 ∷ 100 ∷ []) ∷ []

length-array : length array ≡ max_length
unfolding max_length
length-array = length-replicate {A = ℕ} 8096 0

in_order : AllInOrder size call queue fresh two_chunks
unfolding start occur on_arrival call_all run_handler pick on_send on_write write_next push on_read
    try_process_next process received span compact_buffer compact_buffer_if_needed do_read
    max_length get_message_size message_types message_size keyed_size install apply_to
in_order = ((refl, omega arith), ((refl, omega arith), (refl, ((refl, omega arith), tt))))

no_fault : (reads size fresh.connection (chunks two_chunks)).stop ≡ waits
unfolding start reads on_read try_process_next process received span compact_buffer
    compact_buffer_if_needed do_read max_length get_message_size message_types message_size
    keyed_size install apply_to
no_fault = refl

size_of_nothing : size [] ≡ some 0
unfolding get_message_size
size_of_nothing = refl

start-call_all_example :
    let a = call_all call 7 (split_all size (flatten (chunks two_chunks))).messages in
    let s' = occur_all size call queue fresh two_chunks in
    (sent_or_waiting s' ≡ a.0) × (s'.state ≡ a.1)
start-call_all_example =
    start-call_all size call queue (message_types-IsStable 2 headers codes headers-IsLayout)
      size_of_nothing 7 array two_chunks length-array in_order tt no_fault

fresh-IsWriter : IsWriter fresh.writer
unfolding start
fresh-IsWriter = record { busy = refl }

occur_all-handed_example :
    let s' = occur_all size call queue fresh two_chunks in
    IsWriter s'.writer
    × (sent_or_waiting s' ≡ sent_or_waiting fresh ++ handed size call queue fresh two_chunks)
occur_all-handed_example = occur_all-handed size call queue fresh two_chunks fresh-IsWriter in_order

-- Two responses that are posted, one that is being written.
abbrev busy : Session ℕ ℕ
busy = record fresh {
  posted = 2 ∷ 3 ∷ [];
  writer = record { pending = 1 ∷ []; started = 1 ∷ []; writing = true; closed = false };
  reading = true;
}

drain_answers_example :
    let es = drain 1 2 in
    let s' = occur_all size call queue busy es in
    AllInOrder size call queue busy es
    × (s'.writer.pending ≡ [])
    × (s'.posted ≡ [])
    × (s'.writer.started ≡ sent_or_waiting busy)
drain_answers_example = drain_answers size call queue busy (record { busy = refl })

failing : AllCanOccur size call queue busy (fails ∷ runs 0 ∷ delivers 9 ∷ runs 1 ∷ [])
unfolding occur on_write_error
failing = (refl, (tt, (tt, (tt, tt))))

fails_silent_example :
    let s' = occur_all size call queue busy (fails ∷ runs 0 ∷ delivers 9 ∷ runs 1 ∷ []) in
    s'.writer.started ≡ 1 ∷ []
fails_silent_example =
    fails_silent size call queue busy (runs 0 ∷ delivers 9 ∷ runs 1 ∷ []) (omega arith)
      (omega arith) failing

breaking : AllCanOccur size call queue busy (breaks ∷ delivers 9 ∷ [])
breaking = (refl, (tt, tt))

breaks_silent_example :
    (handed size call queue busy (breaks ∷ delivers 9 ∷ []) ≡ 9 ∷ [])
    × ((occur_all size call queue busy (breaks ∷ delivers 9 ∷ [])).state ≡ busy.state)
    × ((occur_all size call queue busy (breaks ∷ [])).writer.closed ≡ true)
breaks_silent_example = breaks_silent size call queue busy (delivers 9 ∷ []) breaking

-- The same chunks, served by the storage: each message is a query of the key that it holds.
-- Between the two another client updates the quota.
abbrev query_of : ℕ → List ℕ → Request
query_of now view = queries now true (drop 2 view)

abbrev serve_query :
    ℕ × State (List EntryWrapper) → List ℕ → List (List Byte) × (ℕ × State (List EntryWrapper))
serve_query = call_on_storage query_of (λ n. n) 2 list_storage

abbrev stored : Client (List EntryWrapper)
stored = start (opened (0, holding two_items) array)

abbrev lowered : Request
lowered = updates 5 (record { attribute = quota; change = decrease; value = 3; key = ip })

abbrev among_others : List (Happening (List EntryWrapper))
among_others = own (arrives chunk) ∷ other lowered ∷ own (arrives (99 ∷ 100 ∷ [])) ∷ []

abbrev among_events : List (Event (ℕ × State (List EntryWrapper)) (List Byte))
among_events = events_of query_of (λ n. n) 2 list_storage among_others

queries_in_order : AllInOrder size serve_query list_buffer stored among_events
unfolding start occur on_arrival call_all run_handler pick on_send on_write write_next push on_read
    try_process_next process received span compact_buffer compact_buffer_if_needed do_read
    max_length get_message_size message_types message_size keyed_size install apply_to
queries_in_order = ((refl, omega arith), (tt, ((refl, omega arith), tt)))

no_query_fault : (reads size stored.connection (chunks among_events)).stop ≡ waits
unfolding start reads on_read try_process_next process received span compact_buffer
    compact_buffer_if_needed do_read max_length get_message_size message_types message_size
    keyed_size install apply_to
no_query_fault = refl

start-replay_own_example :
    let s' = occur_all size serve_query list_buffer stored among_events in
    let stream = flatten (chunks among_events) in
    (h : List Served) × (own_of h
      ≡ requests_at query_of (λ n. n) 0 (split_all size stream).messages)
    × (others_of h ≡ lowered ∷ [])
    × (sent_or_waiting s' ≡ (replay_own 2 h (view list_storage two_items)).0)
    × (view list_storage s'.state.1.storage ≡ (replay_own 2 h (view list_storage two_items)).1)
start-replay_own_example =
    start-replay_own query_of (λ n. n) 2 list_storage size list_buffer
      (message_types-IsStable 2 headers codes headers-IsLayout) size_of_nothing (holding two_items)
      array among_others length-array queries_in_order tt no_query_fault
