-- ===== src/Dockhelper/Helper.antt =====
-- dockhelper/src/lib.rs: the helper that starts and stops containers.
--
-- `docker` is what the process answers to its arguments: what it printed, or `none` where it failed.
use kollaps.Prelude.{ℕ, Bool, true, Option, none, some, List, [], if◌then◌else◌}
use Prim.Native.String.{String}
use kollaps.Netgraph.Link.{VertexEq}
use kollaps.Dockhelper.Cmd.{
  new_run_opts, run, stop, inspect, network, new_create_opts, create, ipvlan, new_ls_opts, ls,
  remove_network, add_filter, add_opt,
}

pub data DockerError : Type 0 where
  command_failed docker_init : DockerError

pub data Answer (A : Type 0) : Type 0 where
  gives : A → Answer A
  fails : DockerError → Answer A
  panics : Answer A

-- `str::trim`, `str::is_empty`, `trim_matches` with `u32::from_str`, and `IpAddr::from_str` with the
-- printing of what it gives.
pub record Texts : Type 0 where
  pub trim : String → String
  pub is_empty : String → Bool
  pub number : String → Option ℕ
  pub address : String → Option String

abbrev pub network_name : String
network_name = "kollaps_ipvlan"

module _ (texts : Texts) (docker : List String → Option String) where
  unfoldable pub check_command : List String → Answer String
  check_command command = elim (docker command) [
    | none ↦ fails command_failed
    | some output ↦ gives (texts.trim output)
  ]

  unfoldable pub launch_container :
      String → String → String → String → Option String → Answer String
  unfolding check_command new_run_opts run
  launch_container net image name ip entry = check_command (
      run []
        (record new_run_opts {
          rm = true;
          interactive = true;
          tty = true;
          detach = true;
          network = some net;
          name = some name;
          ip = some ip;
        })
        image entry)

  unfoldable pub stop_container : String → Answer String
  unfolding check_command stop
  stop_container name = check_command (stop [] name)

  unfoldable pub get_pid : String → Answer ℕ
  unfolding check_command inspect
  get_pid id_or_name = elim (check_command (inspect [] "'{{.State.Pid}}'" id_or_name)) [
    | panics ↦ panics
    | fails e ↦ fails e
    | gives text ↦ elim (texts.number text) [ none ↦ fails command_failed | some pid ↦ gives pid ]
  ]

  unfoldable pub delete_network : String → Answer String
  unfolding check_command remove_network network
  delete_network net = check_command (remove_network (network []) net)

  module _ (names : VertexEq String) where
    unfoldable pub listing : List String
    unfolding ls add_filter new_ls_opts network
    listing =
        ls (network []) (add_filter names (record new_ls_opts { quiet = true }) "name" network_name)

    unfoldable pub creation : String → String → String → List String
    unfolding create add_opt new_create_opts network
    creation interface subnet gateway =
        create (network [])
          (add_opt names
            (record new_create_opts {
              driver = ipvlan;
              gateway = some gateway;
              subnet = some subnet;
            })
            "parent" interface)
          network_name

    -- A gateway that is no address is a panic. An error of the creation is wrapped.
    unfoldable pub create_ipvlan_network : String → String → String → Answer String
    unfolding check_command creation
    create_ipvlan_network interface subnet gateway = elim (texts.address gateway) [
      | none ↦ panics
      | some address ↦ elim (check_command (creation interface subnet address)) [
        | panics ↦ panics
        | fails e ↦ fails docker_init
        | gives text ↦ gives network_name
      ]
    ]

    -- The name of the network.
    unfoldable pub init : String → String → String → Answer String
    unfolding check_command listing create_ipvlan_network
    init interface subnet gateway =
        let created = create_ipvlan_network interface subnet gateway in
        elim (check_command listing) [
          | panics ↦ panics
          | fails e ↦ fails e
          | gives text ↦ if texts.is_empty text then created else gives network_name
        ]
