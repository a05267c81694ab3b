-- ===== src/Startup/Options.antt =====
-- main.cpp and src/sources/state/shutdown.cpp: from the options of the command line to the parameters
-- of the program, and what the server does with its dump at its start and at its end. The parser of
-- the options is boost's: `Options` is what it gives, defaults filled in.
use throttr.Prelude.{
  ℕ, List, Bool, false, Option, none, some, ◌⊎◌, inr, bytes_eq, ltb, if◌then◌else◌,
}
use throttr.Storage.{HashedUnique}
use throttr.Serializer.{Codes, SerializeException, dump_to_file, restore_from_file}

-- A `short` or an `int`, by its sign.
pub data Signed : Type 0 where
  natural : ℕ → Signed
  negative_suc : ℕ → Signed

pub record Options : Type 0 where
  pub socket : List ℕ
  pub port : Signed
  pub threads : Signed
  pub has_master : Bool
  pub master_socket : List ℕ
  pub master_host : List ℕ
  pub master_port : Signed
  pub sync_strategy : List ℕ
  pub persistent : Bool
  pub dump : List ℕ

pub record ProgramParameters : Type 0 where
  pub socket : List ℕ
  pub port : Signed
  pub threads : Signed
  pub has_master : Bool
  pub master_host : List ℕ
  pub master_socket : List ℕ
  pub master_port : Signed
  pub sync_strategy : List ℕ
  pub persistent : Bool
  pub dump : List ℕ

-- The environment variable THREADS: `none` where it is not set, and `some none` where `stoi` throws.
unfoldable pub default_threads : Option (Option Signed) → Signed
default_threads none = natural 1
default_threads (some none) = natural 1
default_threads (some (some (natural n))) = if ltb n 1 then natural 1 else natural n
default_threads (some (some (negative_suc n))) = natural 1

-- The designated initialisers of main name no `persistent_`, which keeps the initialiser that
-- program_parameters.hpp gives it.
unfoldable pub program_options : Options → ProgramParameters
program_options o = record {
  socket = o.socket;
  port = o.port;
  threads = o.threads;
  has_master = o.has_master;
  master_host = o.master_host;
  master_socket = o.master_socket;
  master_port = o.master_port;
  sync_strategy = o.sync_strategy;
  persistent = false;
  dump = o.dump;
}

-- The number of threads that app::serve starts beside its own.
unfoldable pub extra_threads : ProgramParameters → ℕ
extra_threads p = elim p.threads [ natural n ↦ n | negative_suc n ↦ 0 ]

-- The files by their paths.
abbrev pub Files : Type 0
Files = List ℕ → Option (List ℕ)

module _ {S : Type 0} (w : ℕ) (codes : Codes) (c : HashedUnique S) where
  -- state::prepare_for_shutdown
  unfoldable pub prepare_for_shutdown : ProgramParameters → S → Files → Files
  prepare_for_shutdown p s files path =
      if p.persistent
      then (if bytes_eq p.dump path then some (dump_to_file w codes (c.items s)) else files path)
      else files path

  -- state::prepare_for_startup
  unfoldable pub prepare_for_startup : ProgramParameters → S → Files → SerializeException ⊎ S
  prepare_for_startup p s files =
      if p.persistent then restore_from_file w codes c s (files p.dump) else inr s
