-- ===== src/Dockhelper/Cmd.antt =====
-- dockhelper/src/cmd.rs: the arguments that the builders give to `docker`.
--
-- A command is the list of its arguments. Addresses and subnets are given as they are printed. A
-- `HashMap` of options is an association list, in the order in which it is iterated.
use kollaps.Prelude.{Bool, false, Option, none, some, List, [], ◌∷◌, ◌++◌, if◌then◌else◌}
use Prim.Native.String.{String, ◌++◌ as ◌<>◌}
use kollaps.Netgraph.Link.{VertexEq}
use kollaps.Netgraph.Network.{insert}

pub record RunOpts : Type 0 where
  pub rm : Bool
  pub detach : Bool
  pub interactive : Bool
  pub tty : Bool
  pub network : Option String
  pub name : Option String
  pub volume : Option String
  pub ip : Option String

pub data NetworkDriver : Type 0 where
  bridge_driver macvlan ipvlan : NetworkDriver

pub record NetworkCreateOpts : Type 0 where
  pub driver : NetworkDriver
  pub gateway : Option String
  pub subnet : Option String
  pub opts : List (String × String)
  pub range : Option String

pub record NetworkLsOpts : Type 0 where
  pub filters : List (String × String)
  pub quiet : Bool

-- An argument that is there if the flag is set, and one with its value if there is one.
unfoldable flag : Bool → String → List String
flag b word = if b then word ∷ [] else []

unfoldable option : Option String → String → List String
option none word = []
option (some text) word = word ∷ text ∷ []

unfoldable assigned : Option String → String → List String
assigned none word = []
assigned (some text) word = ((word <> "=") <> text) ∷ []

unfoldable pub network : List String → List String
network command = command ++ "network" ∷ []

unfoldable pub new_run_opts : RunOpts
new_run_opts = record {
  rm = false;
  detach = false;
  interactive = false;
  tty = false;
  network = none;
  name = none;
  volume = none;
  ip = none;
}

unfoldable pub run : List String → RunOpts → String → Option String → List String
unfolding flag option
run command opts image entry =
    command
    ++ "run" ∷ []
    ++ flag opts.rm "--rm"
    ++ flag opts.detach "-d"
    ++ flag opts.interactive "-i"
    ++ flag opts.tty "-t"
    ++ option opts.network "--network"
    ++ option opts.name "--name"
    ++ option opts.volume "-v"
    ++ option opts.ip "--ip"
    ++ image ∷ []
    ++ elim entry [ none ↦ [] | some text ↦ text ∷ [] ]

unfoldable pub stop : List String → String → List String
stop command name = command ++ "stop" ∷ name ∷ []

unfoldable pub inspect : List String → String → String → List String
inspect command format id_or_name = command ++ "inspect" ∷ "--format" ∷ format ∷ id_or_name ∷ []

unfoldable pub to_arg : NetworkDriver → String
to_arg bridge_driver = "bridge"
to_arg macvlan = "macvlan"
to_arg ipvlan = "ipvlan"

-- `-o key=value` for each of the options.
unfoldable each_opt : String → List (String × String) → List String
each_opt word [] = []
each_opt word ((a, b) ∷ rest) = word ∷ ((a <> "=") <> b) ∷ each_opt word rest

unfoldable pub new_create_opts : NetworkCreateOpts
new_create_opts = record {
  driver = bridge_driver;
  gateway = none;
  subnet = none;
  opts = [];
  range = none;
}

unfoldable pub create : List String → NetworkCreateOpts → String → List String
unfolding to_arg assigned option each_opt
create command opts name =
    command
    ++ "create" ∷ "-d" ∷ to_arg opts.driver ∷ []
    ++ assigned opts.gateway "--gateway"
    ++ assigned opts.subnet "--subnet"
    ++ each_opt "-o" opts.opts
    ++ option opts.range "--ip-range"
    ++ name ∷ []

unfoldable pub new_ls_opts : NetworkLsOpts
new_ls_opts = record { filters = []; quiet = false }

unfoldable pub ls : List String → NetworkLsOpts → List String
unfolding flag each_opt
ls command opts =
    command ++ "ls" ∷ [] ++ flag opts.quiet "--quiet" ++ each_opt "--filter" opts.filters

unfoldable pub remove_network : List String → String → List String
remove_network command name = command ++ "rm" ∷ name ∷ []

-- The builders that enter a pair in a map; the others set one field.
module _ (names : VertexEq String) where
  unfoldable pub add_filter : NetworkLsOpts → String → String → NetworkLsOpts
  unfolding insert
  add_filter o key value = record o { filters = insert names key value o.filters }

  unfoldable pub add_opt : NetworkCreateOpts → String → String → NetworkCreateOpts
  unfolding insert
  add_opt o key value = record o { opts = insert names key value o.opts }
