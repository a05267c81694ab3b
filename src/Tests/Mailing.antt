-- ===== src/Tests/Mailing.antt =====
-- A message that is sent to a connection, and a server that is started with options.
use throttr.Prelude.{ℕ, ◌<◌, [], ◌∷◌, true, false, ◌≡◌, inr, refl, arith, if◌then◌else◌, ◌==◌, none}
use throttr.Circular.{CircularBuffer}
use throttr.Circular.ListBuffer.{list_buffer, push}
use throttr.Pools.{Pool, take_one, take_last, last_of, recycle, remove_if, fit}
use throttr.Pools.Count.{count_of}
use throttr.Pools.Recycling.{IsPool}
use throttr.Mail.{Mail, post, Gives, Reachable, starts, goes_on, sends, fill, enqueue, runs}
use throttr.Mail.Holding.{held}
use throttr.Session.{pick}
use throttr.Mail.Safety.{write_buffer-Step, take_one-Reachable, held-Reachable}
use throttr.Storage.ListStorage.{list_storage}
use throttr.Startup.Options.{
  Options, natural, Files, program_options, prepare_for_shutdown, prepare_for_startup,
}
use throttr.Startup.Dumping.{program_options_forget}
use throttr.Tests.Data.{two_items}
use throttr.Tests.Restarting.{bytes}

abbrev queue : CircularBuffer ℕ
queue = list_buffer

-- One message of the pool, number 0.
abbrev one_message : Pool
one_message = record {
  available = 0 ∷ [];
  used = [];
  capacity = 40_960;
  heap = record { recyclable = λ i. true; in_use = λ i. false; write_buffer = λ i. []; next = 1 };
}

one_message-IsPool : IsPool one_message
unfolding count_of
one_message-IsPool = record {
  once = λ i. ground arith;
  known = λ i h. ground arith;
  free = λ i h. (refl, refl);
  available_fits = omega arith;
  used_fits = omega arith;
}

abbrev taken : Pool
taken = record one_message {
  available = [];
  used = 0 ∷ [];
  heap = record one_message.heap { in_use = λ i. if i == 0 then true else false };
}

take_one-Gives : Gives queue one_message 0 taken
unfolding take_one take_last last_of recycle remove_if fit push
take_one-Gives = refl

abbrev quiet : Mail
quiet = record { pool = one_message; posted = λ id. []; pending = λ id. [] }

abbrev sent : Mail
sent = post (fill (record quiet { pool = taken }) 0 (1 ∷ [])) 3 0

sent-Reachable : Reachable queue sent
sent-Reachable =
    goes_on quiet sent (starts one_message one_message-IsPool (omega arith))
      (sends quiet 3 0 taken (1 ∷ []) take_one-Gives)

take_one-Reachable_example :
    (m : ℕ) × (p' : Pool) × Gives queue sent.pool m p'
    × (p'.heap.write_buffer m ≡ [])
    × ((id : ℕ) → held sent id m ≡ 0)
    × ((id i : ℕ) → 0 < held sent id i → p'.heap.in_use i ≡ true)
take_one-Reachable_example = take_one-Reachable queue sent sent-Reachable

held_zero : 0 < held sent 3 0
unfolding post fill count_of
held_zero = omega arith

write_buffer-Step_example :
    (enqueue queue sent 3 (pick 0 (sent.posted 3))).pool.heap.write_buffer 0
    ≡ sent.pool.heap.write_buffer 0
write_buffer-Step_example =
    write_buffer-Step queue sent (enqueue queue sent 3 (pick 0 (sent.posted 3))) sent-Reachable
      (runs sent 3 0) 3 0 held_zero

held-Reachable_example : (◌≡◌ {A = ℕ} 3 3) × (held sent 3 0 ≡ 1)
held-Reachable_example = held-Reachable queue sent sent-Reachable 3 3 0 held_zero held_zero

-- The options of `throttr --persistent=true`.
abbrev persistent_options : Options
persistent_options = record {
  socket = 115 ∷ [];
  port = natural 9_000;
  threads = natural 1;
  has_master = false;
  master_socket = 100 ∷ [];
  master_host = 104 ∷ [];
  master_port = natural 9_000;
  sync_strategy = 104 ∷ [];
  persistent = true;
  dump = 116 ∷ [];
}

abbrev no_files : Files
no_files path = none

program_options_forget_example :
    let p = program_options persistent_options in
    (prepare_for_shutdown 2 bytes list_storage p two_items no_files ≡ no_files)
    × (prepare_for_startup 2 bytes list_storage p [] no_files ≡ inr [])
program_options_forget_example =
    program_options_forget 2 bytes list_storage persistent_options two_items [] no_files
