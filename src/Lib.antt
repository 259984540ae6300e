-- ===== src/Lib.antt =====
-- The core of the SysFlow processor: a reader joins events with the entities they refer to, the
-- flattener deduplicates records, a policy engine judges them by its policies, and an exporter
-- hands them on in batches.
--
-- Engine models core/policyengine/engine below the interpreter: Engine/Record and Engine/Context
-- are types.go, Engine/Quotes is trimBoundingQuotes of utils.go, Engine/Mapper is the adapter part
-- of fieldmapper.go, and Engine/Criterion is predicates.go. Its children prove what the
-- combinators and the comparisons decide (Laws), and that criteria read telemetry only
-- (Telemetry).
--
-- Policy models interpreter.go and actionhandler.go of core/policyengine/engine. Policy/Syntax has
-- the parse trees of core/policyengine/lang/Sfpl.g4, Policy/Lists reads lists and resolves named
-- ones, Policy/Visit compiles an expression to a criterion, Policy/Interpreter is the state of the
-- interpreter with the two walks over a file, Policy/Actions the registered actions, and
-- Policy/Process the application of filters and rules to a record. Policy/Pool is the main loop of
-- core/policyengine/policyengine.go with the workers of an interpreter and the bounded output
-- channels, as a step relation in which each send to a channel is a step.
--
-- Engine/Symlink is parseSymPath with the two formats that it scans, and Engine/Fields the
-- functions that build field maps, with the tables of exported and of query attributes in files by
-- section and their union in Engine/Fields/Mappers.
--
-- Sfgo has the objects of sf-apis with the fields that the code reads. Cache/Tables is
-- core/cache/tables.go; Reader is core/processor/reader.go, a round of its loop as a function from
-- a record to the calls of the handler.
--
-- Flattener/Filter is core/flattener/filter.go with its clock made explicit, and Flattener/Output
-- the semantic hash of that file with the output of core/flattener/flattener.go.
-- Flattener/Handlers has the handlers of flattener.go, each as the assignments (Flattener/Writes,
-- Flattener/Entities) to a new flat record, and Flattener/Texts follows them to the attributes
-- that the policy engine reads.
--
-- Encoders/Json is core/exporter/encoders/json.go: Values has the texts of values and attributes,
-- Sections the loop over the attributes with the whole text, Encoder what the encoder keeps
-- between records and batches, and Escape the escaping of a text, read back by the reader of
-- Literal.
--
-- Encoders/Occurrence is core/exporter/encoders/occurrence.go: Event has the events of records
-- with their export paths, Writer the writer of a pool's files, Pool the pool of a container, and
-- Encoder the occurrences and the pools of all containers. What the file system answers and what
-- the clock reads are inputs of each step.
--
-- Encoders/Ecs is core/exporter/encoders/ecs.go: Document has the maps of a document, Parts and
-- Kinds what the entities and the kind of a record add to one, and Encode the whole document.
--
-- Exporter is the loop of core/exporter/exporter.go as a function of what it receives, and
-- Exporter/Sets is core/exporter/utils/set.go. Monitor is the detection of changes in
-- core/policyengine/monitor/localpolicymonitor.go. Config has core/policyengine/engine/config.go
-- and core/flattener/config.go.
--
-- Texts are lists of bytes; strings.TrimSpace and the scanning of package fmt read them as runes,
-- and strings.ToLower is modelled on the ASCII letters only, so `icontains` is that of the code
-- for ASCII texts. Go's maps are association lists. Recursion through named lists and macros has
-- no bound in the source; it runs here on two fuels, the depths of nested lists and of nested
-- macros, and is shown to end within them when no definition leads back to itself. The tree of a
-- process likewise runs on the length of its chain of parents. The JSON package, package sfgo, the
-- hash and checksum functions, the encoder that the exporter's loop calls, the writer of package
-- easyjson, the Bloom filter and the actions of users are parameters.
--
-- Left out are the generated parser, the driver, the JSON text of ECS documents, the transports,
-- logging, plugins and all input and output. Goroutines and channels are modelled for the worker
-- pool only. An action returns the changed record, since the code hands it a pointer.
pub mod Prelude
pub mod Sfgo
pub mod Engine
pub mod Policy
pub mod Cache
pub mod Reader
pub mod Flattener
pub mod Monitor
pub mod Config
pub mod Exporter
pub mod Encoders
pub mod Tests
