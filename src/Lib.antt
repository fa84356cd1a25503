-- ===== src/Lib.antt =====
-- BaselineOS turns a machine into a Proxmox host that a person administers from a web application. This
-- library models the parts of baseline/lib that decide what may be done: who confirmed it, which
-- request it is, on which drive, and in which order. Times are whole microseconds; every other number is
-- a natural number, and no arithmetic of the program can overflow, since it is Python's. The loops of the
-- code run over lists, but for two searches in Topology and the reading of sourced files in Repair.
--
-- The parts, and how they interact:
--
-- - Hitl (baseline/lib/hitl.py): a person confirms a dangerous action by typing a sentence and a secret.
--   `Types` has the data, `Operations` the challenge and its confirmation (`ConfirmationStore.challenge`,
--   `confirm`, `_prune`, `_mint`), `Approvals` the standing grants, the daily approvals and `require`,
--   which every action calls, and `Calls` a run of any calls. The secret's check, HMAC, SHA-256 and the
--   calendar are the record `Env`; the clock and the random draws are arguments. The lock is left out:
--   each method holds it from its start to its end, so that calls follow one another. AuditFile, which
--   appends the log to a file, is not modelled.
-- - WebGate (baseline/lib/web_gate.py): the proof that a logged-in session, or a schedule that such a
--   session signed, asked for an operation. The key file and the audit callback are left out.
-- - Operations (baseline/lib/operations.py): the catalogue of operations, the routes that a role may
--   reach, `validate`, `execute`, and the scheduler. `execute` and the scheduler call WebGate. The
--   bodies of the operations, which run rsync and ssh, are a parameter.
-- - FirstBoot (baseline/lib/firstboot_statemachine.py): the journaled state machine of the first boot.
--   `Journal` has the journal and its evidence guard, `Stages` the stages of `run`, and `Crashes` the
--   disks that runs leave behind which are cut off anywhere. What the host and the person answer is the
--   record `World`; the screens, verify_diagnostic_tools and apply_configurator_settings are left out.
-- - Interfaces (baseline/lib/ifnet_config.py): /etc/network/interfaces and the files that it sources.
--   `Recognize` has the regular expressions as functions of a line, `Parser` the parser (`_parse_text`,
--   `parse_files`), `Rewrite` the two rewritings (`rewrite_stanza_to_dhcp`, `add_dhcp_stanza`), and
--   `Closure` the text that `hash_closure` hashes. Of an exception only its kind is kept.
-- - Repair (baseline/lib/repair.py, repair_additive.py, repair_rollback.py): the change of an interface to
--   DHCP, and its rollback. `Reading` has `read_interfaces_config`, `Checks` the questions to the host
--   (`check_standalone_host`, `detect_ifupdown2`, the connection guard, `verify_target`), `Attempts` the
--   backups and their retention, the pending manifest and the timer, `Pipeline` the repair, and
--   `Rollback` what the timer and a boot run. `reset_interface_to_dhcp` and `add_dhcp_to_bridge` are one
--   pipeline in the code, written twice; here it is written once, and a `Shape` has what differs. A step
--   takes the host and returns a value or what it raises, and the host behind it. What commands print,
--   what a disk keeps of a text that is written, and what others do to the files between the backup and
--   the second look at them is the record `World`, SHA-256, the listing of a directory and fnmatch too.
--   An attempt's directory is a space of its own, which no interfaces file is in. An event is its step and
--   its status. The reading runs for as many rounds as the files on the disk name paths, and one, which
--   `Terminates` shows to be enough. `Safe` states what holds at each point of a repair, `Before`,
--   `Armed` and `Writes` show it of each step, `Settles` of a whole repair, and `Restores` and `Recovers`
--   go on with the rollback. `Plan` has `plan_and_derive`, which proposes a repair; `Proposed` compares it
--   with the repair's own derivation, and `Evident` with the evidence that FirstBoot asks for.
--   Pipeline calls Interfaces and Topology, and the first boot calls it.
-- - Topology (baseline/lib/topology.py): which interface a repair may change. `Stanzas` has the edges
--   between the stanzas of Interfaces, `Walk` the search along them and both derivations, which differ in
--   the test of a stanza. The search runs for as many rounds as there are stanzas, and one, which `Rounds` shows to
--   be enough; the depth of the search for physical devices is the same number, which `Depth` shows.
-- - ConfigPipeline (baseline/lib/config_pipeline.py): the settings that a first boot applies. The
--   functions of config_apply.py are the record `Apply`.
-- - Drives (baseline/lib/drive_guard.py, physical_device_safety.py): whether a drive may be formatted,
--   and which block device a destructive helper accepts. The commands' outputs are parsed as the code
--   does, as lists of code points.
-- - Persistence (baseline/lib/testpersistence): grants, attachment states, the chained ledger, the
--   restore of a snapshot and the evidence of an identity. failures.py, identity.py, ownership.py and
--   storage_classes.py are not modelled.
-- - Settings (baseline/lib/registry.py, settings_store.py): `Registry` has the tables of the two databases
--   and the operations on them, `Store` the settings. A database is a record of its tables, or is not
--   there. The version of the schema and the migrations are parameters; a migration runs as often as
--   versions are missing, so that the loop is a recursion on their number. `Spec` has the map that the
--   tables keep, `Refines`, `Reads`, `Valid` and `Apart` the proofs. JSON text is the value that it holds,
--   a list or a dict as a value is left out, and so is `all_effective_settings`.
-- - Base: lists, dicts, results and text, as Python has them.
--
-- Not modelled: the pages and handlers of the web application, which call the gates above; the
-- installers, backups, guests and inventory collectors, which run commands on the host; and Guardian,
-- a Rust workspace of its own.
mod Base
pub mod Hitl
pub mod WebGate
pub mod Operations
pub mod Persistence
pub mod FirstBoot
pub mod Drives
pub mod ConfigPipeline
pub mod Interfaces
pub mod Topology
pub mod Repair
pub mod Settings
