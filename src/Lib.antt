-- ===== src/Lib.antt =====
-- A verification library for rust-stainless, which extracts Rust programs as Stainless programs.
--
-- The macros of `libstainless` attach specs to functions (`pre`, `post`, `measure`) by generating
-- functions for them. A plugin of rustc (`stainless_frontend`) runs `stainless_extraction`, which finds
-- those functions by their names and builds the nodes of `stainless_data`, a program `Symbols`. The
-- program is serialized in the binary format of the verifier and sent to it by `stainless_backend`.
--
-- The parts, each with its files here and in the repository:
--   Ser: stainless_data/src/ser.rs, the trait `Serializer` over the buffer of `BufferSerializer`. A
--     method is a function from the buffer to a new one or a panic (`Ser`).
--   Ast: stainless_data/src/ast/generated.rs, ser/serializable.rs and the serializers of ast.rs.
--     Ast.Kinds has the structs of each enum, Ast.Markers their marker ids and Ast.Shapes the types of
--     their fields; a `Value` of a field type is a node or a field. Ast.Serialize is
--     `Serializable::serialize`. Ast.Encoding is the format, described without a buffer and without
--     panics, Ast.Encodable says which values it can represent, and Ast.PrefixCode is about decoding
--     it. Ast.Distinct is about the marker ids.
--   Symbols: `Symbols` of stainless_data/src/ast.rs, its hash maps and its serialization.
--   Spec: stainless_extraction/src/spec.rs and, in Spec.Macro, libstainless_macros/implementation.rs.
--     Spec.Names and Spec.Expansion relate the two.
--   Registry: the ids of definitions, of stainless_extraction/src/utils.rs and lib.rs, over what
--     rustc answers. Registry.Fresh is about one counter, Registry.Issued about all
--     ids that are issued, and Registry.Stable about asking for an id again.
--   Factory: the functions of `Factory` in generated.rs and ast.rs, for the nodes that the extraction
--     builds.
--   Flags: stainless_extraction/src/flags.rs, the flags that attributes give to an item and its parts.
--     Flags.Sound is about all attributes of an item at once.
--   StdItems: stainless_extraction/src/std_items.rs, the tables of the items of the standard library.
--     StdItems.Search is about the search through a crate.
--   Rustc: what the extraction reads of rustc's types and definitions.
--   Hair: the trees of rustc_hair that the extraction reads, as data without references to be mirrored.
--   Extraction: the state of stainless_extraction/src/lib.rs and the steps on it, in a monad.
--     Extraction.Types and Extraction.Generics are ty.rs, Extraction.Adts is the part of krate.rs about
--     data types. Extraction.Measure, Extraction.Fine, Extraction.Enough and Extraction.Fuel are about
--     the end of the extraction, Extraction.Order about the order of the data types,
--     and Extraction.Steps about steps in sequence. Extraction.Items is the part of krate.rs that finds
--     the items and their specs, with Extraction.Items.Contributions and Extraction.Items.Collected
--     about it; Extraction.Functions is the part about functions of other crates, Extraction.Bindings is bindings.rs, and
--     Extraction.Literals literal.rs. The functions of expr.rs are in Extraction.Operators, Patterns,
--     Calls, Blocks and Exprs, one for each function of the source; `extract_expr` is by mutual
--     recursion over the tree, and the other parts take the extraction of their operands as actions.
--     Extraction.Whole is a logic of steps that neither run out of fuel nor leave something out without
--     a report, with the steps of ty.rs and expr.rs in it, and Extraction.Exprs.Ifs is about matches that
--     are taken for an `if`. Extraction.LocalFns is the part of krate.rs about functions with a body:
--     `extract_local_fn`, `extract_spec_fn` and the loops of `process_crate` over the functions, with
--     Extraction.LocalFns.Parts about a function and its specs.
--   Prelude: tests, lists, integers, sorting, texts and the outcome of code that may panic.
--   Tests: programs on which the theorems are used.
--
-- Numbers: an `i32` or `u32` is its bit pattern, a natural number below 2 ^ 32, and casts are written
-- as remainders. A hash map is the list of its entries in the order of iteration. The decimal notation
-- of a number is computed with as much fuel as the number is large, and `read-decimal` is about
-- that fuel. The search through a crate takes a round of fuel for each definition, up to the last one
-- that is looked for; the extraction of data types takes one for each data type without an id, and one
-- for each parent of an item where its parameters are collected. All else is structural recursion.
--
-- Parameters: `BigInt::to_signed_bytes_be` of num_bigint, assumed injective where a reader is concerned;
-- `char::is_numeric`, assumed to hold of the decimal digits; the syntax trees and the parser of syn;
-- the definitions of rustc, their paths and their equality, the queries `Rustc` and `Crates`, the
-- order in which a hash map is iterated, the order in which the bindings of a body are visited, and the
-- body and the signature of a function.
--
-- Not modelled: the arena and the derived traits of the nodes, the pretty printer, the text of a report
-- as far as it prints a node of rustc, the messages of the backend, and the processes and files of the
-- frontend and the backend.
pub mod Prelude
pub mod Ser
pub mod Ast
pub mod Factory
pub mod Flags
pub mod StdItems
pub mod Symbols
pub mod Spec
pub mod Registry
pub mod Rustc
pub mod Hair
pub mod Extraction
pub mod Tests
