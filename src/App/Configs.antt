-- ===== src/App/Configs.antt =====
-- How the sources of the configuration are put together, and what the program exits with.
use xtemplate.Prelude.{
  ◌≡◌, arith, Bool, true, none, Option-cases, inl, inr, List, [], ◌∷◌, ◌++◌, Text,
}
use xtemplate.Prelude.Errors.{Result, ok, err}
use xtemplate.Config.{ConfigOption}
use xtemplate.App.{
  Args, Run, exited, going, Platform, Decoded, configure, server_error, watched, watching, started,
  serves, main,
}

-- One JSON text after the other is decoded over what is there; a text that cannot be read or decoded
-- ends the program.
abbrev pub decode_all : Platform → List (Result Text) → Args → Run Args
decode_all o [] a = going a
decode_all o (err e ∷ texts) a = exited 1
decode_all o (ok t ∷ texts) a = elim (o.decode t a) [
  | err e ↦ exited 1
  | ok b ↦ decode_all o texts b
]

-- The arguments of the command line, `a`, unless there is a text: then those that are decoded from the
-- default arguments, over which the command line is parsed again.
abbrev parsed_again : Platform → Run Args → Run Args
parsed_again o (exited n) = exited n
parsed_again o (going b) = o.must_parse b

abbrev pub settled : Platform → Args → Args → List (Result Text) → Run Args
settled o default_args a [] = going a
settled o default_args a (t ∷ ts) = parsed_again o (decode_all o (t ∷ ts) default_args)

-- Whether there was a text to decode.
abbrev pub any_decoded {ℓ} : {A : Type ℓ} → Bool → List A → Bool
any_decoded b [] = b
any_decoded b (x ∷ xs) = true

abbrev pub flagged : Bool → Run Args → Run Decoded
flagged b (exited n) = exited n
flagged b (going a) = going (record { args = a; decoded = b })

module _ (o : Platform) where
  watching-dirs :
      (listen address : Text) (dirs served : List Text)
      → watching o listen dirs ≡ serves address served
      → served ≡ dirs
  unfolding watching
  watching-dirs listen address [] served h = ground (arith, h)
  watching-dirs listen address (d ∷ ds) served h = elim (Option-cases (o.watch_dirs (d ∷ ds))) [
    | inl quiet ↦ let h = rw (watching, quiet) at h in ground (arith, h)
    | inr (e, failed) ↦ let h = rw (watching, failed) at h in absurd (ground (arith, h))
  ]

  -- With `WatchTemplates` and no file system in the arguments, the directory of the templates is watched
  -- whenever the program serves, whatever the overrides are: also if one of them, `WithTemplateFS`,
  -- makes the server load its templates from elsewhere, or changes the directory.
  pub main-watched :
      (overrides : List ConfigOption) (default_args a : Args) (address : Text) (dirs : List Text)
      → configure o default_args ≡ going a
      → a.config.templates_fs ≡ none
      → a.watch_templates ≡ true
      → main o overrides default_args ≡ serves address dirs
      → dirs ≡ a.watch ++ a.config.templates_dir ∷ []
  unfolding main started watched
  main-watched overrides default_args a address dirs configured no_fs watches ends =
      let started_ = rw configured at ends in
      elim (Option-cases (server_error o overrides a.config)) [
        | inr (e, failed) ↦ let h = rw (started, failed) at started_ in absurd (ground (arith, h))
        | inl fine ↦
            let h = rw (started, watched, fine, no_fs, watches) at started_ in
            watching-dirs a.listen address _ dirs h
      ]
