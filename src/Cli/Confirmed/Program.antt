-- ===== src/Cli/Confirmed/Program.antt =====
-- The commands of subcommands and the program of cli/cmd/crapnote.
use crapnote.Base.{
  inl, inr, not, ◌&&◌, ◌≡◌, ◌≢◌, refl, Bool, true, false, List, [], ◌∷◌, if◌then◌else◌, arith,
}
use crapnote.Db.{Bytes}
use crapnote.Cli.{
  Flags, Parsed, asked_help, misused, parsed, Outside, ClientCall, toggle_star, toggle_pin,
  toggle_lock, Plan, asks, is_help_arg,
}
use crapnote.Base.Table.{exists}
use crapnote.Cli.Parsing.{Shrinks, Tells, says_yes}
use crapnote.Cli.Contents.{notes_sub, cmd_notes, tags_sub, cmd_tags}
use crapnote.Cli.Trash.{export_args, trash_sub, cmd_trash, cmd_export, tokens_sub, cmd_tokens}
use crapnote.Cli.Run.{
  search_args, cmd_search, archive_args, cmd_archive, cmd_whoami, version_args, cmd_version,
  cmd_help, run_command, Outcome, stuck, through, run_rest, run_parsed, from_environment, run_stdin,
}
use crapnote.Cli.Confirmed.{
  is_irreversible, Linked, IsConfirmed, ended, sent, if-IsConfirmed, interspersed-IsConfirmed,
}
use crapnote.Cli.Confirmed.Steps.{
  with_sub-IsConfirmed, with_linked-IsConfirmed, unless_help-IsConfirmed, no_arguments-IsConfirmed,
  found-IsConfirmed,
}
use crapnote.Cli.Confirmed.Commands.{
  on_id-IsConfirmed, notes_create-IsConfirmed, notes_get-IsConfirmed, notes_delete-IsConfirmed,
  notes_update-IsConfirmed, notes_archive_op-IsConfirmed, notes_list-IsConfirmed,
  notes_tags_list-IsConfirmed, notes_tag_op-IsConfirmed, tags_list-IsConfirmed,
  tags_create-IsConfirmed, tags_rename-IsConfirmed, tags_delete-IsConfirmed, trash_list-IsConfirmed,
  trash_restore-IsConfirmed, trash_purge-IsConfirmed, trash_empty-IsConfirmed,
  export_args-IsConfirmed, tokens_list-IsConfirmed, tokens_revoke-IsConfirmed,
  tokens_revoke_all-IsConfirmed,
}

module _ (o : Outside) (shrinks : Shrinks o) where
  notes_sub-IsConfirmed :
      {said : Bool} (sub : Bytes) (f : Flags) (rest : List Bytes)
      → IsConfirmed said (notes_sub o sub f rest)
  unfolding notes_sub
  notes_sub-IsConfirmed sub f rest =
      if-IsConfirmed _ _ _ (notes_list-IsConfirmed o shrinks f rest) (
        if-IsConfirmed _ _ _ (notes_create-IsConfirmed o shrinks f rest) (
          if-IsConfirmed _ _ _ (notes_get-IsConfirmed o shrinks f rest) (
            if-IsConfirmed _ _ _ (notes_update-IsConfirmed o shrinks f rest) (
              if-IsConfirmed _ _ _ (notes_delete-IsConfirmed o shrinks f rest) (
                if-IsConfirmed _ _ _ (on_id-IsConfirmed o shrinks toggle_star f rest (λ id. refl)) (
                  if-IsConfirmed _ _ _ (on_id-IsConfirmed o shrinks toggle_pin f rest (λ id. refl))
                    (if-IsConfirmed _ _ _
                      (on_id-IsConfirmed o shrinks toggle_lock f rest (λ id. refl))
                      (if-IsConfirmed _ _ _ (notes_archive_op-IsConfirmed o shrinks true f rest) (
                        if-IsConfirmed _ _ _ (notes_archive_op-IsConfirmed o shrinks false f rest) (
                          if-IsConfirmed _ _ _ (notes_tags_list-IsConfirmed o shrinks f rest) (
                            if-IsConfirmed _ _ _ (notes_tag_op-IsConfirmed o shrinks true f rest) (
                              if-IsConfirmed _ _ _ (notes_tag_op-IsConfirmed o shrinks false f rest)
                                ((ended _))))))))))))))

  tags_sub-IsConfirmed :
      {said : Bool} (sub : Bytes) (f : Flags) (rest : List Bytes)
      → IsConfirmed said (tags_sub o sub f rest)
  unfolding tags_sub
  tags_sub-IsConfirmed sub f rest = if-IsConfirmed _ _ _ (tags_list-IsConfirmed o shrinks f rest) (
      if-IsConfirmed _ _ _ (tags_create-IsConfirmed o shrinks f rest) (
        if-IsConfirmed _ _ _ (tags_rename-IsConfirmed o shrinks f rest)
          (if-IsConfirmed _ _ _ (tags_delete-IsConfirmed o shrinks f rest) ((ended _)))))

  trash_sub-IsConfirmed :
      {said : Bool} (sub : Bytes) (f : Flags) (rest : List Bytes)
      → Linked o said rest
      → IsConfirmed said (trash_sub o sub f rest)
  unfolding trash_sub
  trash_sub-IsConfirmed sub f rest heard =
      if-IsConfirmed _ _ _ (trash_list-IsConfirmed o shrinks f rest) (
        if-IsConfirmed _ _ _ (trash_restore-IsConfirmed o shrinks f rest) (
          if-IsConfirmed _ _ _ (trash_purge-IsConfirmed o shrinks f rest heard)
            (if-IsConfirmed _ _ _ (trash_empty-IsConfirmed o shrinks f rest heard) ((ended _)))))

  tokens_sub-IsConfirmed :
      {said : Bool} (sub : Bytes) (f : Flags) (rest : List Bytes)
      → Linked o said rest
      → IsConfirmed said (tokens_sub o sub f rest)
  unfolding tokens_sub
  tokens_sub-IsConfirmed sub f rest heard =
      if-IsConfirmed _ _ _ (tokens_list-IsConfirmed o shrinks f rest) (
        if-IsConfirmed _ _ _ (tokens_revoke-IsConfirmed o shrinks f rest)
          (if-IsConfirmed _ _ _ (tokens_revoke_all-IsConfirmed o shrinks f rest heard) ((ended _))))

  search_args-IsConfirmed :
      {said : Bool} (f : Flags) (args : List Bytes) → IsConfirmed said (search_args o f args)
  unfolding search_args
  search_args-IsConfirmed f args =
      interspersed-IsConfirmed o shrinks _ f args _ (λ g words. found-IsConfirmed o g words)

  cmd_search-IsConfirmed :
      {said : Bool} (f : Flags) (args : List Bytes) → IsConfirmed said (cmd_search o f args)
  unfolding cmd_search
  cmd_search-IsConfirmed f [] = search_args-IsConfirmed f []
  cmd_search-IsConfirmed f (a ∷ []) =
      if-IsConfirmed _ _ _ (ended _) (search_args-IsConfirmed f (a ∷ []))
  cmd_search-IsConfirmed f (a ∷ b ∷ rest) = search_args-IsConfirmed f (a ∷ b ∷ rest)

  archive_args-IsConfirmed :
      {said : Bool} (f : Flags) (args : List Bytes) → IsConfirmed said (archive_args o f args)
  unfolding archive_args
  archive_args-IsConfirmed f [] = ended _
  archive_args-IsConfirmed f (sub ∷ rest) =
      if-IsConfirmed _ _ _
        (interspersed-IsConfirmed o shrinks _ f rest _ (λ g words. sent _ _ refl)) (ended _)

  cmd_whoami-IsConfirmed :
      {said : Bool} (f : Flags) (args : List Bytes) → IsConfirmed said (cmd_whoami o f args)
  unfolding cmd_whoami
  cmd_whoami-IsConfirmed f args =
      interspersed-IsConfirmed o shrinks _ f args _
        (λ g words. no_arguments-IsConfirmed o words _ (sent _ _ refl))

  version_args-IsConfirmed :
      {said : Bool} (f : Flags) (args : List Bytes) → IsConfirmed said (version_args o f args)
  unfolding version_args
  version_args-IsConfirmed f args =
      interspersed-IsConfirmed o shrinks _ f args _
        (λ g words. no_arguments-IsConfirmed o words _ (ended _))

  cmd_version-IsConfirmed :
      {said : Bool} (f : Flags) (args : List Bytes) → IsConfirmed said (cmd_version o f args)
  unfolding cmd_version
  cmd_version-IsConfirmed f args =
      unless_help-IsConfirmed o (version_args o) f args (version_args-IsConfirmed f)

  run_command-IsConfirmed :
      {said : Bool} (cmd : Bytes) (f : Flags) (rest : List Bytes)
      → Linked o said rest
      → IsConfirmed said (run_command o cmd f rest)
  unfolding run_command cmd_notes cmd_tags cmd_trash cmd_export cmd_tokens cmd_archive
  run_command-IsConfirmed cmd f rest link =
      if-IsConfirmed _ _ _
        (with_sub-IsConfirmed o (notes_sub o) f rest (λ sub. notes_sub-IsConfirmed sub f))
        (if-IsConfirmed _ _ _ (cmd_search-IsConfirmed f rest) (
          if-IsConfirmed _ _ _
            (unless_help-IsConfirmed o (archive_args o) f rest (archive_args-IsConfirmed f))
            (if-IsConfirmed _ _ _
              (with_sub-IsConfirmed o (tags_sub o) f rest (λ sub. tags_sub-IsConfirmed sub f))
              (if-IsConfirmed _ _ _
                (with_linked-IsConfirmed o (trash_sub o) f rest link
                  (λ sub. trash_sub-IsConfirmed sub f))
                (if-IsConfirmed _ _ _
                  (unless_help-IsConfirmed o (export_args o) f rest
                    (export_args-IsConfirmed o shrinks f))
                  (if-IsConfirmed _ _ _
                    (with_linked-IsConfirmed o (tokens_sub o) f rest link
                      (λ sub. tokens_sub-IsConfirmed sub f))
                    (if-IsConfirmed _ _ _ (cmd_whoami-IsConfirmed f rest)
                      (if-IsConfirmed _ _ _ (cmd_version-IsConfirmed f rest) (ended _)))))))))

  IsConfirmed-said :
      {said : Bool} (p : Plan) (g : Flags) (call : ClientCall)
      → IsConfirmed said p
      → p ≡ asks g call
      → is_irreversible call ≡ true
      → (g.yes ≡ true) × (said ≡ true)
  IsConfirmed-said _ g call (ended code) e lasting = absurd (cc e)
  IsConfirmed-said {said = said} _ g call (sent f c h) e lasting =
      let same_flags : f ≡ g = cc e in
      let same_call : c ≡ call = cc e in
      let h' : is_irreversible call && not (g.yes && said) ≡ false =
        rw (same_flags, same_call) at h in
      (ground (arith, h', lasting), ground (arith, h', lasting))

  -- Whatever the command and its arguments are: a request that deletes a note for good, empties the trash or revokes
  -- all tokens is made only with --yes set, and only if one of the arguments behind the command starts with --yes or
  -- -yes. This is for a package flag that gives back arguments that it got, no more of them, and that sets --yes
  -- only if one of them starts so.
  pub run_command-yes :
      (cmd : Bytes) (f g : Flags) (rest : List Bytes) (call : ClientCall)
      → Tells o
      → run_command o cmd f rest ≡ asks g call
      → is_irreversible call ≡ true
      → (g.yes ≡ true) × (exists says_yes rest ≡ true)
  run_command-yes cmd f g rest call tells e lasting =
      IsConfirmed-said (run_command o cmd f rest) g call
        (run_command-IsConfirmed cmd f rest (inr (tells, λ s. s))) e lasting

  through-ends : (url token : Bytes) (p : Plan) → IsConfirmed true p → through url token p ≢ stuck
  through-ends url token _ (ended code) = λ c. cc c
  through-ends url token _ (sent g call h) = λ c. cc c

  help-IsConfirmed : (args : List Bytes) → IsConfirmed true (cmd_help o args)
  unfolding cmd_help
  help-IsConfirmed [] = ended _
  help-IsConfirmed (topic ∷ rest) = if-IsConfirmed _ _ _ (ended _) (ended _)

  if-ends : (b : Bool) (x y : Outcome) → x ≢ stuck → y ≢ stuck → (if b then x else y) ≢ stuck
  if-ends true x y h k = h
  if-ends false x y h k = k

  run_rest-ends : (f : Flags) (args : List Bytes) → run_rest o f args ≢ stuck
  unfolding run_rest
  run_rest-ends f [] = λ c. cc c
  run_rest-ends f (cmd ∷ rest) =
      if-ends (is_help_arg cmd) _ _
        (through-ends f.url f.token (cmd_help o rest) (help-IsConfirmed rest))
        (through-ends f.url f.token (run_command o cmd f rest)
          (run_command-IsConfirmed cmd f rest (inl refl)))

  run_parsed-ends : (p : Parsed) → run_parsed o p ≢ stuck
  run_parsed-ends asked_help = λ c. cc c
  run_parsed-ends misused = λ c. cc c
  run_parsed-ends (parsed f rest) =
      if-ends f.version _ _
        (through-ends f.url f.token (cmd_version o f []) (cmd_version-IsConfirmed f []))
        (run_rest-ends f rest)

  -- The program ends on every command line, with an exit code or with one request, if package flag gives back no
  -- more arguments than it gets.
  pub run_stdin-ends : (args : List Bytes) → run_stdin o args ≢ stuck
  unfolding run_stdin
  run_stdin-ends args = run_parsed-ends (o.parse ("version" ∷ []) (from_environment o) args)
