-- ===== src/Lib.antt =====
-- A verification library for CrustyDB, a database in Rust of several crates under src/. A client's
-- SQL becomes a plan of operators (crate `queryexe`); the operators evaluate expressions that are
-- compiled to bytecode (crate `common`), and pull tuples from one another through one trait; the
-- tuples lie as records on slotted pages of 4096 bytes (crate `storage/heapstore`), and the pages
-- are locked for transactions (crate `txn_manager`). Errors are values of one type, and a failed
-- `unwrap`, an index out of range and an overflow are panics.
--
-- The modules, and the code that each is about:
--   Prelude              names and lemmas that the others share; Prelude/Results.antt has what a call
--                        comes to: `ok`, `err` with a `CrustyError` (src/common/src/error.rs), `panic`
--   Common.Ids           src/common/src/ids.rs: `ValueId`, `TransactionId`, `Permissions`
--   Common.Catalog       src/common/src/catalog.rs and table.rs: tables and their identifiers
--   Txn.Transaction      src/txn_manager/src/transactions.rs: the states of a transaction
--   Txn.LockManager      src/txn_manager/src/lockmanager.rs: `acquire_lock`, `release_lock`,
--                        `release_locks`, `page_ids`, `clear`. The two maps are functions into
--                        `Option`; `acquire_lock` is split at its branches into `acquire_new`,
--                        `acquire_shared`, `acquire_read` and `acquire_write`
--   Heap.Bytes, Heap.Page  src/storage/heapstore/src/page.rs and heap_page.rs: the page is a function
--                        from positions to bytes, the 16-bit words of header and slot table are read
--                        and written as two bytes each, and every slice has its range check. Body
--                        moves, compaction, insertion, reading, deletion and the iterator are there
--   Expr.Field           src/common/src/datatypes.rs and operation.rs: values, 64-bit arithmetic with
--                        checked overflow, decimals, comparisons
--   Expr.Ast             src/common/src/ast_expr.rs, `get_field_index` and `contains` of
--                        src/common/src/lib.rs, `is_computed_from` of
--                        src/queryexe/src/query/planner.rs
--   Expr.Bytecode        src/common/src/bytecode_expr.rs: the stack machine and its dispatch table
--   Expr.Convert         src/queryexe/src/query/planner.rs: `convert_ast_to_bytecode`
--   Expr.Meaning         the independent description of what an expression means
--   Ops                  src/queryexe/src/opiterator: the trait, and the operators Filter, Project,
--                        CrossJoin and TupleIterator, each over abstract children
--
--   Mem                  src/storage/memstore/src/storage_manager.rs: the store in memory. Its maps are
--                        functions into `Option`, and the iterator reads the contents of its container
--                        as they are at each call
--   Plan.Graph           src/common/src/crusty_graph.rs: the graph that holds a plan, with the list of
--                        edges of each node
--   Plan.Logical, Plan.Physical  src/common/src/logical_plan and src/common/src/physical_plan, with
--                        `logical_plan_to_physical_plan` of src/queryexe/src/query/planner.rs
--   Plan.Tree            the abstract view of a plan: the tree of its operators
--   Plan.Pushdown        src/optimizer/src/pushdown_predicate.rs and `extract_columns` of optimizer.rs:
--                        Plan.Pushdown.Spec is the same on trees, with no graph and no failure, and
--                        Plan.Pushdown.Wanted describes the result without the loops and helpers of
--                        the code
--   Plan.Projection      src/optimizer/src/pushdown_projection.rs, with Plan.Projection.Spec on trees:
--                        what the new projections contain
--   Plan.Rows            what a tree of operators computes, which the pushdown is compared with. A row
--                        on which a predicate has an error or a panic is dropped, where the program
--                        would stop the query
--
-- Bounds and fuel. A page has 4096 bytes, so a well-formed slot table has at most 681 entries,
-- and lengths and offsets fit 16 bits; both are conditions of `WellFormed` and not assumed apart
-- from it. The evaluation loop runs on fuel: the number of codes, which is enough as every round
-- moves on. The loops of Filter.next and CrossJoin.next run on fuel that stands for any number of
-- rounds, and the theorems say how much is enough; a loop that runs out of fuel would be a panic,
-- so none does. The pushdown recurs over a graph, on fuel for the height of the tree; a scan of
-- the memory store has fuel for the slots up to the last one. A slot is a 16-bit word, of which
-- an overflow is a panic.
--
-- Parameters. Multiplication and division of decimals round through `f64`; this rounding is a
-- parameter (`round_div`) of which nothing is assumed. What an aggregate and a sort do to rows
-- are parameters of the meaning of a plan; the theorems on rows are about plans without them. The
-- catalog of a plan is a function from containers to the names of their columns, and the order in
-- which a set gives its columns is the parameter `in_order`: it lists each column of the set once.
--
-- Not modelled: file input and output, serialisation, parsing and printing, the server and its
-- threads, the SQL front end (a third-party parser), the checks of a plan's graph for cycles and
-- reachability, and the parts that the code leaves unwritten (the other joins, aggregation, most
-- of the heap file). A schema is the list of its names, which is all that the modelled code reads
-- of it. After an error or a panic of an operator its state is not followed, since the query ends
-- there.
pub mod Prelude
pub mod Common
pub mod Txn
pub mod Heap
pub mod Expr
pub mod Ops
pub mod Mem
pub mod Plan
