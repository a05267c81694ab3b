-- ===== src/Startup/Dumping.antt =====
-- What the start and the end of the server do with its dump.
use mathlib.Core.Path.{fun_ext}
use throttr.Prelude.{
  ℕ, ◌<◌, ◌^◌, true, none, ◌≡◌, inl, inr, refl, All, bytes_eq_refl, length, if◌then◌else◌,
}
use throttr.Entry.{Key}
use throttr.Storage.{HashedUnique, is_some}
use throttr.Storage.Views.{view}
use throttr.Serializer.{Codes, unable_to_open, restore_from_file}
use throttr.Serializer.Parsing.{IsDumpable}
use throttr.Serializer.Restoring.{blank, restore_from_file-dump_to_file}
use throttr.Startup.Options.{
  Options, ProgramParameters, Files, program_options, prepare_for_shutdown, prepare_for_startup,
}

module _ {S : Type 0} (w : ℕ) (codes : Codes) (c : HashedUnique S) where
  -- Whatever the options of the command line, the option to persist included, the server that
  -- main starts writes no file at its end and restores nothing at its start.
  pub program_options_forget :
      (o : Options) (s s' : S) (files : Files)
      → let p = program_options o in
        (prepare_for_shutdown w codes c p s files ≡ files)
        × (prepare_for_startup w codes c p s' files ≡ inr s')
  unfolding program_options prepare_for_shutdown prepare_for_startup
  program_options_forget o s s' files = (fun_ext λ path. refl, refl)

  -- A persistent server whose dump is not there throws at its start.
  pub prepare_for_startup_first :
      (p : ProgramParameters) (s : S) (files : Files)
      → p.persistent ≡ true
      → files p.dump ≡ none
      → prepare_for_startup w codes c p s files ≡ inl unable_to_open
  unfolding prepare_for_startup restore_from_file
  prepare_for_startup_first p s files persistent missing = rw (persistent, missing) refl

  -- A persistent server that ends and one that starts after it: a key that the storage has keeps
  -- its contents, and any other key that was live gets its type, its unit and its expiration point
  -- back, with a value of zeros; where the dump can hold every entry, there are fewer than 2^32 of
  -- them, and a value has less than 256 bytes.
  pub prepare_for_startup-prepare_for_shutdown :
      (p : ProgramParameters) (s s0 : S) (files : Files)
      → p.persistent ≡ true
      → All (IsDumpable w codes) (c.items s)
      → length (c.items s) < 2 ^ 32
      → w < 256
      → (s' : S) × (prepare_for_startup w codes c p s0 (prepare_for_shutdown w codes c p s files)
          ≡ inr s')
        × ((k : Key)
            → view c s' k ≡ (if is_some (c.find s0 k) then view c s0 k else blank w k (c.items s)))
  unfolding prepare_for_startup prepare_for_shutdown
  prepare_for_startup-prepare_for_shutdown p s s0 files persistent all many width =
      rw (persistent, bytes_eq_refl p.dump)
        (restore_from_file-dump_to_file c w codes s0 (c.items s) all many width)
