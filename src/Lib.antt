-- ===== src/Lib.antt =====
-- pbox creates Linux containers, called boxes, on Proxmox VE (PVE) and reaches them through an agent in
-- the box, directly or through a relay. This library models the parts that decide: which VMID a new
-- container gets, what is written into its notes, what a box ID is, what a configuration may say, what a
-- request to PVE may hold, whom the relay lets through to which box, and how the agent keeps terminal
-- sessions alive between attachments.
--
-- The parts, the files that model them, and the code:
--   Vmid       crates/pbox-core/src/vmid.rs. VmidPattern::parse is parse, its Display is display,
--              allocate_lowest is itself over the list of used VMIDs.
--   Id         crates/pbox-core/src/id.rs. generate is a function of the random bytes; parse reads
--              characters, with as_u8 for the cast in the source.
--   Metadata   crates/pbox-core/src/metadata.rs. marker_spans, parse_metadata and preserve_metadata on
--              the bytes of a note; the JSON of a marker is a parameter.
--   Config     crates/pbox-core/src/config.rs. Config holds the records, Config/Checks the checks of a
--              value, Config/Durations parse_duration, Config/Values validate, set_value and
--              unset_value, Config/Layers load and the layers that it merges, Config/Redaction the
--              printed views. A key of the source is a constructor of Key with its name in key_name.
--   Pve        crates/pbox-core/src/pve.rs. Pve has the checks and the encoding of what goes into a request,
--              is_successful and select_lxc_ipv4; Pve/Encoding decodes what was encoded, Pve/Segments is
--              about the path of lxc_status_action, Pve/Selection about the choice of an address.
--   Agent      crates/pbox-agent/src. The first three are sessions.rs: Agent/Modes has TerminalModes, its
--              callbacks and restore_modes; Agent/Keys has terminal_input and encode_key; Agent/Sessions has the
--              registry and the handlers prepare, list, get, read and send, and Agent/Sessions/Steps
--              start, attach, the owner tasks and the commands, which share the permits, as a step
--              relation on a World. Agent/Workspace is workspace.rs: resolve and identity. Agent/Service is main.rs:
--              validate_exec_request and receive_upload, with the failures of the file system as a
--              record Faults.
--   Cli        crates/pbox-cli/src. Cli/Images is images.rs: ImageReference::parse and its checks,
--              canonical, search terms and lists of tags. Cli/Snapshots is snapshots.rs: names, the saved
--              metadata, inventory, find and fresh_secondary_networks. Cli/Recipes is recipes.rs: the
--              repository of recipes and the checks of paths, names and capabilities.
--   Relay      crates/pbox-relay/src. Relay/Route and Relay/Token are lib.rs: routes, session URLs,
--              scoped tokens. Relay/Access is access.rs: the issuer of expiring credentials, with its
--              handler issue. Relay/Server is server.rs: the state, check, upgrade and remove_waiter;
--              Relay/Server/Steps has the connection tasks as a step relation on a World, which also
--              keeps the requests that came in, and Relay/Server/Forward is forward.
--   Base       shared names, lists, texts and their order, UTF-8, decimal numbers and results.
--
-- How they interact: Config keeps a VmidPattern; a route of the relay is one or two box IDs; the server
-- asks Relay/Token for a token of a box and Relay/Access for one that expires; the issuer signs with
-- Relay/Token what the server accepts; a command that the agent runs in a session is resolved by
-- Agent/Workspace; and a reference that Cli/Images accepts passes the check of Pve.
--
-- What stands for code elsewhere: the crates hmac, sha2 and hex are a record Crypto, url is UrlCrate and
-- Setters, JSON and TOML are functions, the certificates of pbox-crypto are a record Certificates, and
-- PVE is a function from a URL and a credential to a reply. The user database and the files of a container
-- are functions too, and so are what vt100 does to a screen and str::to_uppercase. The theorems that need
-- something of them take it as a hypothesis: hexadecimal text is read back (IsHex), setters of a URL
-- clear their part (IsClearing). Authentication codes may collide: where this matters a theorem names
-- the two inputs.
--
-- State is passed explicitly: a configuration goes in and comes out, the relay is a record, and an
-- interleaving is a sequence of steps. A failing operation returns err, or an answer with its status.
-- Numbers are natural numbers; u64, u32, u16 and i64 have their bounds written out where the source
-- checks them, and fetch_add wraps at 2 ^ 64. Loops are structural. Only the digits of a number are
-- counted, in show_digits: twenty, which is what a u64 has, and parse_digits reads them back; and the
-- markers of a note are searched for with one more than its length as the fuel, which a search never uses
-- up, since a marker is not empty. allocate_lowest tries as many candidates as its range has, and ends by
-- then.
--
-- Not modelled: the HTTP requests to PVE and the records of its replies; network, file and terminal input
-- and output, so also the client side of the relay, the heartbeat and the deadline of a waiting agent
-- (they are the steps in which a task ends), and the writing of the configuration file; of the agent, what
-- draws a screen, samples processes, runs commands, forwards connections and sends files; the client of
-- the agent; and of the command line, all but what Cli has.
pub mod Base
pub mod Vmid
pub mod Id
pub mod Metadata
pub mod Config
pub mod Pve
pub mod Agent
pub mod Relay
pub mod Cli
