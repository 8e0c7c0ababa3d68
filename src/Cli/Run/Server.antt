-- ===== src/Cli/Run/Server.antt =====
-- Which server a command talks to: cli/cmd/crapnote/main.go.
use crapnote.Base.{
  ◌≡◌, refl, Bool, true, false, List, [], ◌∷◌, ◌++◌, inl, inr, Bool-cases, if◌then◌else◌,
}
use crapnote.Db.{Bytes}
use crapnote.Cli.{
  Flags, Parsed, asked_help, misused, parsed, Outside, ClientCall, Plan, exits, asks, unfinished,
  is_help_arg,
}
use crapnote.Cli.Run.{
  cmd_version, cmd_help, run_command, requests, through, run_rest, run_parsed, from_environment,
  run_stdin,
}

through-client :
    (o : Outside) (u t url token : Bytes) (p : Plan) (call : ClientCall)
    → through u t p ≡ requests url token call
    → (url ≡ u) × (token ≡ t)
through-client o u t url token (exits code) call e = absurd (cc e)
through-client o u t url token (asks g c) call e = (cc e, cc e)
through-client o u t url token unfinished call e = absurd (cc e)

run_rest-client :
    (o : Outside) (f : Flags) (args : List Bytes) (url token : Bytes) (call : ClientCall)
    → run_rest o f args ≡ requests url token call
    → (url ≡ f.url) × (token ≡ f.token)
unfolding run_rest
run_rest-client o f [] url token call e = absurd (cc e)
run_rest-client o f (cmd ∷ rest) url token call e = elim (Bool-cases (is_help_arg cmd)) [
  | inl b ↦ through-client o f.url f.token url token (cmd_help o rest) call (rw b at e)
  | inr b ↦ through-client o f.url f.token url token (run_command o cmd f rest) call (rw b at e)
]

-- A request goes to the address and with the token of the flags that the first call of package flag left.
run_stdin-read :
    (o : Outside) (args : List Bytes) (url token : Bytes) (call : ClientCall)
    → run_stdin o args ≡ requests url token call
    → (f : Flags) × (rest : List Bytes) × (o.parse ("version" ∷ []) (from_environment o) args
        ≡ parsed f rest)
      × (url ≡ f.url)
      × (token ≡ f.token)
unfolding run_stdin
run_stdin-read o args url token call e =
    client (o.parse ("version" ∷ []) (from_environment o) args) e
  where
    client :
        (p : Parsed)
        → run_parsed o p ≡ requests url token call
        → (f : Flags) × (rest : List Bytes) × (p ≡ parsed f rest)
          × (url ≡ f.url)
          × (token ≡ f.token)
    client asked_help e = absurd (cc e)
    client misused e = absurd (cc e)
    client (parsed f rest) e = decided f.version e
      where
        decided :
            (b : Bool)
            → (if b then through f.url f.token (cmd_version o f []) else run_rest o f rest)
              ≡ requests url token call
            → (g : Flags) × (args' : List Bytes) × (parsed f rest ≡ parsed g args')
              × (url ≡ g.url)
              × (token ≡ g.token)
        decided true e =
            let (same_url, same_token) =
              through-client o f.url f.token url token (cmd_version o f []) call e in
            (f, rest, refl, same_url, same_token)
        decided false e =
            let (same_url, same_token) = run_rest-client o f rest url token call e in
            (f, rest, refl, same_url, same_token)

-- Which server a request goes to, and with which token, does not depend on what stands behind the command: two command
-- lines that agree up to the command send to one address with one token, whatever --url and --token stand behind it in
-- either, where package flag stops in front of the command with the same flags for both.
pub run_stdin-client :
    (o : Outside) (f : Flags) (front behind behind' : List Bytes) (cmd : Bytes)
    (url url' token token' : Bytes) (call call' : ClientCall)
    → o.parse ("version" ∷ []) (from_environment o) (front ++ cmd ∷ behind)
      ≡ parsed f (cmd ∷ behind)
    → o.parse ("version" ∷ []) (from_environment o) (front ++ cmd ∷ behind')
      ≡ parsed f (cmd ∷ behind')
    → run_stdin o (front ++ cmd ∷ behind) ≡ requests url token call
    → run_stdin o (front ++ cmd ∷ behind') ≡ requests url' token' call'
    → (url ≡ url') × (token ≡ token')
run_stdin-client o f front behind behind' cmd url url' token token' call call' p p' e e' =
    let (g, rest, q, at_url, with_token) =
      run_stdin-read o (front ++ cmd ∷ behind) url token call e in
    let (g', rest', q', at_url', with_token') =
      run_stdin-read o (front ++ cmd ∷ behind') url' token' call' e' in
    let same : f ≡ g = read_flags p q in
    let same' : f ≡ g' = read_flags p' q' in
    (rw (at_url, at_url', ← same, ← same') refl, rw (with_token, with_token', ← same, ← same') refl)
  where
    read_flags :
        {p : Parsed} {g h : Flags} {r s : List Bytes} → p ≡ parsed g r → p ≡ parsed h s → g ≡ h
    read_flags p q = cc (p, q)
