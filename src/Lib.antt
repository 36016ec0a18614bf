-- ===== src/Lib.antt =====
-- A model of the core of graph-ingest-test: the program that builds a code graph of a repository,
-- with the calls that Java class files prove, and reviews the graph for vulnerabilities.
--
-- The parts and how they interact:
--   * Classfile (graph_core/bytecode/classfile.py) reads a class file: Reader is the cursor
--     `_Reader`, Utf8 the decoding of text, Pool and Access the constant pool and the accessors of
--     `_Pool`, Descriptor the descriptors, Shapes the dataclasses, Lines the line number tables,
--     Code the instruction walk `_scan_code`, Attributes `_find_attributes`, Members `parse_class`
--     and the loops over fields and methods.
--   * Matcher (graph_core/bytecode/matcher.py) finds the graph node of a bytecode reference: Names
--     normalises names and types, Index is `NodeIndex.build`, Lookup is `method_id` and
--     `override_target`. It reads descriptors and parsed classes by Classfile.
--   * External (graph_core/external_api.py) says what kind of dangerous call a method outside the
--     repository is, by its tables and by Catalog (graph_core/catalog/__init__.py), which merges the
--     catalog of sources, sinks and sanitizers and looks up a method in it.
--   * Bytecode (graph_core/bytecode_resolver.py) turns parsed class files into edges,
--     `resolve_java_bytecode`: State is its state, with the edges and the set `seen`; Calls the loops
--     over the calls and field accesses of a method; Classes the loops over methods and classes with
--     `_synthesize_node`; Hierarchy EXTENDS and IMPLEMENTS; Overrides the walk over the ancestors and
--     the OVERRIDES edges; Resolve the whole pass with its guards and its report. It takes classes of
--     Classfile.Shapes, finds nodes by Matcher and kinds of calls by External.
--   * Derive (graph_core/pipeline.py, `_derive_overrides`) derives OVERRIDES by name where the pass of
--     Bytecode has not answered: it takes the claims of Bytecode as the methods and pairs to leave.
--   * Canonical (graph_core/canonical_ir.py) merges bundles of extracted nodes, edges and references,
--     as `index_repo` does it for each batch and for all batches.
--   * Checkpoint (graph_core/checkpoint.py, and the batch loop of `index_repo`) resumes an extraction
--     after a crash; Stream is `RefStream`, which reads the batches back for the resolver.
--   * Validator (graph_core/validator.py) counts edges while they are written and validates a graph.
--   * Reach (analysis/reach.py) marks the functions between entry points and sinks: Propagate is the
--     fixpoint loop that both passes run, Store the graph and its seeds, Marks the passes, Counts the
--     numbers that they return.
--   * Paths (analysis/paths.py) selects the rows of a path query for the model: `dedupe_paths` in
--     Longest, `batch_paths` in Batches.
--   * Findings (analysis/findings.py) makes the report: the fingerprint, Dedupe, Rank, Dismissals
--     (what is remembered from run to run) and Reporting.
--   * Priority (analysis/priority.py) gives a severity to a finding and signals to a summary: the
--     table, `derive_signals` and `_bare_names`.
--   * Prelude holds what these share; Tests runs the theorems on concrete inputs.
--
-- How state and errors are modelled: the cursor is passed along explicitly, and a reader returns its
-- result with the cursor or the error that Python raises (`class_file_error`, `struct_error`). The
-- dicts of the source are association lists in insertion order. A query over the graph is a pass
-- over the list of functions, which reads the whole graph before it writes. A method under
-- construction, the match statistics and the edge statistics are records that are passed along.
--
-- Loops that run on fuel: the constant pool has its count as fuel, since each round adds 1 or 2 to
-- the index; the instruction walk has the length of the code, since each round moves on by a byte at
-- least; a descriptor has the length of its text, since each round takes a character. Running out is
-- an error of its own (`out_of_fuel`). The walks over ancestors (`walk`, `climb`) have one more than
-- the length of the stack and the number of supertypes in the whole table: each round pops a name or
-- visits a new one, whose supertypes no later round pushes again. The fixpoint loops of
-- Reach run 50 rounds, the guard of the source, and end unconverged behind it.
--
-- Crashes and threads: a run of the batch loop is the list of its writes to the directory, one for
-- each system call that matters (open, dump, replace, remove), and a crash leaves the directory after
-- some of them. The loader thread and the consumer of `RefStream` are a step relation, with
-- a step for an exception that ends the loader.
--
-- Parameters: the body hash that the graph database gives for a function, the SHA-1 digest of a
-- fingerprint's key, the digest that makes a node's id, the tables of the catalog and the enabled
-- categories, the parsed classes in the order in which the files are found, what each run extracts its
-- batches of files to, which files a removal of the directory reaches before it ends, and, for each
-- batch that the loader reads, what `load_batch` returns or that it raises.
--
-- Not modelled: input and output, log lines and timings, the extractors, the resolver of source
-- references, the rest of the pipeline, the propagators of the catalog, the passes that call a
-- language model, the database. Two simplifications of the standard library: `str.isdigit`,
-- `str.strip` and `str.lower` are those on ASCII text, and the numbers of the constant pool are kept
-- as bytes. Scores are in quarters of a point, which is exact: every weight is a multiple of a half,
-- and a sanitizer halves the score. The rates of the bytecode report are exact fractions.
pub mod Bytecode
pub mod Canonical
pub mod Catalog
pub mod Checkpoint
pub mod Classfile
pub mod Derive
pub mod External
pub mod Findings
pub mod Matcher
pub mod Paths
pub mod Prelude
pub mod Priority
pub mod Reach
pub mod Tests
pub mod Validator
