-- ===== src/Cli/Address.antt =====
-- cmd/tumbleweed-cli/main.go: the address of the broker among the arguments of a command.
use tumbleweed.Base.{◌≡◌, refl, ap, ◌∙◌, inl, inr, ◌⊎◌, List, [], ◌∷◌, ◌++◌, true, All}
use tumbleweed.Broker.Names.{Name, same_name}
use tumbleweed.Client.Address.{connect}
use tumbleweed.Cli.{addr_flag, long_addr_flag, is_addr, placed, sort_args, rearrange_args}
use tumbleweed.Cli.Arranged.{is_addr-either}
use tumbleweed.Cli.Laws.{IsOther, sort_args-single, sort_args-others}
use tumbleweed.Cli.Flags.{shape, no_flag, parsed, parse_flags, parse_flags-no_flag}
use tumbleweed.Cli.Commands.{
  Environment, string_flag, addr_name, default_addr, connected, with_address, after_flags, main,
}

-- An address between other arguments goes to the front.
sort_args-addr :
    (front : List Name) (flag addr : Name) (back : List Name)
    → is_addr flag ≡ true
    → All IsOther front
    → All IsOther back
    → sort_args (front ++ (flag ∷ addr ∷ back)) ≡ (flag ∷ addr ∷ [], front ++ back)
unfolding sort_args
sort_args-addr [] flag addr back e f b = rw (e, sort_args-others back b) refl
sort_args-addr (o ∷ front) flag addr back e ((no_addr, no_value), f) b =
    sort_args-single o (front ++ (flag ∷ addr ∷ back)) no_addr
    ∙ ap (placed o) (sort_args-addr front flag addr back e f b)
    ∙ rw no_value refl

parse_addr :
    (flag addr cmd : Name) (args : List Name)
    → (flag ≡ addr_flag) ⊎ (flag ≡ long_addr_flag)
    → shape cmd ≡ no_flag
    → parse_flags (string_flag addr_name) default_addr (flag ∷ addr ∷ cmd ∷ args)
      ≡ parsed addr (cmd ∷ args)
unfolding parse_flags shape same_name
parse_addr flag addr cmd args (inl e) no_dash =
    rw e (parse_flags-no_flag (string_flag addr_name) addr cmd args no_dash)
parse_addr flag addr cmd args (inr e) no_dash =
    rw e (parse_flags-no_flag (string_flag addr_name) addr cmd args no_dash)

-- The address of the broker, with -addr or --addr in front of it, may stand before a command, between
-- the command's arguments or behind them, where neither the command nor an argument looks like an
-- address flag and the command does not begin as a flag: the client is connected to that address, and
-- the command runs with all its arguments and without the address.
pub main-addr :
    {C : Type 0} (env : Environment C) (flag addr cmd : Name) (front back args : List Name)
    → is_addr flag ≡ true
    → All IsOther front
    → All IsOther back
    → front ++ back ≡ cmd ∷ args
    → shape cmd ≡ no_flag
    → main env (front ++ (flag ∷ addr ∷ back)) ≡ connected env cmd args (connect env.dial addr)
unfolding main rearrange_args
main-addr env flag addr cmd front back args e f b whole no_dash =
    rw (sort_args-addr front flag addr back e f b, whole)
      (ap (after_flags (with_address env))
        (parse_addr flag addr cmd args (is_addr-either flag e) no_dash))
