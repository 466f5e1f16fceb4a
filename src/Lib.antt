-- ===== src/Lib.antt =====
-- pfctl: a Rust library that drives the packet filter pf through the ioctl calls of /dev/pf.
--
-- The program has five layers, and the modules follow them.
--   * Values: Rule and its children model src/rule (one module per file, with the rules of
--     src/rule/mod.rs in Rule/Filter, Rule/Nat, Rule/Redirect and Rule/Scrub), Rule/PoolAddr models
--     src/pooladdr.rs, Anchor models src/anchor.rs and src/ruleset.rs, and State models
--     src/state.rs. Each value is written into a field of a structure of Ffi (src/ffi/pfvar.rs);
--     `try_copy_to`, `copy_to` and `to_u8` carry the names that they have in the source.
--   * Calls: Kernel is the interface to the operating system: a record of the ioctl calls that
--     src/ffi/mod.rs declares, each a function from the descriptor, the structure that is passed
--     and the kernel's state to the return value, errno, the structure afterwards and the new
--     state. `ioctl_guard` is the macro of src/macros.rs. Code that calls the kernel is an `Action`,
--     a function from the kernel's state to a result and the new state, written with do blocks.
--     Utils models src/utils.rs.
--   * Transactions: Transaction models src/transaction.rs. Changes collects the changes of an
--     anchor, Rules adds one rule of each kind, and Commit asks for tickets, hands them out to the
--     changes, adds the rules and commits.
--   * Operations: Pfctl models the methods of `PfCtl` (src/lib.rs): Status, Anchors, Rules, States
--     and Interfaces. Error and Cstr model the errors and the string helpers of src/lib.rs and
--     src/rule/mod.rs.
--   * Programs: the programs of examples/, without what they print. Programs/Enable, AddAnchor,
--     FlushRules, AddRules and Transaction have the names of the programs; Programs/SingleRules and
--     Programs/TransRules have the rules of examples/add_rules.rs and examples/transaction.rs,
--     Programs/TestAnchor the anchor of these two, and Programs/Main what all of them share.
-- Common has the shared lists, tests and integers, ByteOrder and Net what the code uses of Rust's
-- byte order and address types. The modules below Kernel, Transaction, Pfctl and Programs that are
-- not named above, those called Laws, and Error/Succeeds, Rule/Codes, Rule/Decoding, Rule/Families,
-- Rule/Flags, Rule/Writing and Rule/Filter/Decoding hold proofs; Error/Text has the texts of errors.
-- Tests has a small platform and kernel and the theorems at concrete values.
--
-- Conventions. A result is a value, an error, or a panic (`unwrap`, `expect` on nothing). A byte or
-- a machine integer is a natural number below its bound; signed 32-bit values are integers; every
-- cast and every sum that wraps has its modulus written out. A string is the list of its bytes. A
-- buffer of the caller keeps its length whatever a call writes into it. The target is little-endian,
-- as every macOS machine is. The hash map of a transaction is the list of its entries in the order
-- in which it iterates, so that what is proved for a list holds for every order. Of a structure
-- that an operation fills and then drops on an error, the half-written value is left out.
--
-- Parameters. The builders that derive_builder generates are a parameter, in Rule/Builders, where
-- BuildsRules says that a setter sets its field, and that `build` fills in the defaults that the
-- attributes of the rules name or reports a missing required field. Platform has the constants of
-- libc and the functions of the crate ipnetwork; what is relied on of them is in
-- HasDistinctProtocols and AcceptsPrefixes. The kernel is a parameter too: Transaction/Rulesets
-- says what is relied on of its transactions and of the buffer of pool addresses
-- (IsTransactional), Transaction/Going that it refuses a call of a commit only for a ticket that
-- is not current (Obliges), and Pfctl/Appending what is relied on of the call that changes one
-- rule (IsChangeable). ListsAnchors, ListsStates and ListsInterfaces say what a kernel state
-- lists, KeepsAnchors (Pfctl/Anchoring) what inserting and deleting an anchor does to the list,
-- HasAnchors (Programs/AddAnchor/Added) that this holds for every descriptor and that opening and
-- closing changes no anchor, ReportsCleared (Pfctl/Clearing) what DIOCCLRSTATES reports,
-- InsertsElsewhere (Programs/TestAnchor/Kept) that inserting a rule changes no ruleset but the
-- one that the call names, and ObligesAll (Programs/Transaction/Running) that a kernel refuses a
-- call of examples/transaction.rs only for such a ticket or for an anchor that is there already.
-- What the allocator has to give (`allocates`) is a part of the kernel too. Tests has kernels
-- that satisfy all of them.
--
-- Loops. The loops over rules, changes, states and pool addresses are recursion on the list. The
-- loop of `with_anchor_rule` runs as many rounds as the kernel counts rules. The loop of
-- `get_interfaces` has fuel, `max_retries` = 2, which is enough: each round raises the counter that
-- ends it.
--
-- Not modelled: the Debug texts of values, except for those that go into an error's message; the
-- generated builder of NAT rules; the layouts of the structures of src/ffi/pfvar.rs beyond the
-- fields that the code names; what the programs print; build.rs and the test support code.
pub mod Common
pub mod Error
pub mod Cstr
pub mod ByteOrder
pub mod Net
pub mod Ffi
pub mod Platform
pub mod Rule
pub mod Kernel
pub mod Anchor
pub mod Utils
pub mod Transaction
pub mod State
pub mod Pfctl
pub mod Programs
pub mod Tests
