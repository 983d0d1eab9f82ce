-- ===== src/Lib.antt =====
-- QtJsonDb: the versioned objects of a JSON database, the queries on them, and who may do what.
--
-- The database stores JSON objects that carry a version "<update count>-<hash>" in _version, and
-- in _meta the history of the versions they replaced and the conflicts that are not resolved. A
-- partition writes an object optimistically (the write names the version it replaces) or merges
-- one that another database sent. Clients find objects by queries, which a tokenizer and a parser
-- read; a query is matched against an object, or compiled into the constraints of an index query.
-- An owner's rules, which are queries too, say which operations on an object are allowed.
--
-- The files, and the code they model:
--   Qt         what the sources use of Qt. Qt/Text is QString as a list of UTF-16 units; Qt/Json
--              is QJsonValue, QJsonArray and QJsonObject, an object being its members in order,
--              with remove and insert as Qt has them (inserting Undefined removes the key).
--              Qt/Calls is a record of the functions of Qt that are not modelled: numbers and
--              text, hashes, uuids, doubles, regular expressions. Every definition that calls
--              one takes the record as its argument, and two records state what is relied on.
--   Strings    src/partition/jsondbstrings.cpp: the keys.
--   Object     src/partition/jsondbobject.cpp and jsondbobject.h.
--     Version      accessors, tokenizeVersion, versionAsString, computeVersion, operator <
--     History      addAncestor, isAncestorOf, populateHistory
--     Optimistic   updateVersionOptimistic, one definition for each of its steps, which run_update
--                  composes: resolve_conflict, progress_head, resurrect, keep_books, accept_replay
--     Replicate    updateVersionReplicating and populateMerge
--     Path         valueByPath
--   Query      src/partition/jsondbquery.h, jsondbquery.cpp and parts of the index.
--     Term         JsonDbQueryTerm, JsonDbOrQueryTerm, JsonDbQuery
--     Compare      == on values, and lessThan and greaterThan of jsondbindexquery.cpp
--     Match        JsonDbQuery::match, with the cache of joined objects as its state
--     Constraint   the constraints of jsondbindexquery.cpp
--     Compile      compileOrQueryTerm, setMin and setMax of jsondbindexquery.cpp; makeFieldValue
--                  and truncateFieldValue of jsondbindex.cpp
--     Scan         seekToStart, seekToNext, first, next and seek of jsondbindexquery.cpp; the cursor is the
--                  list of the entries in front of it
--     Tokenizer    jsondbquerytokenizer.cpp
--     Parser       jsondbqueryparser.cpp: Reader has its actions on the tokenizer, Json the literals,
--                  Terms, Map and Sections the loops of parse
--   Index      src/partition/jsondbindex.cpp.
--     Key          the bytes of an index's keys: makeForwardKey, forwardKeySplit and what they call
--     Compare      indexCompareFunction, the order of the keys
--     Objects      indexObject and deindexObject, the calls that they make of the B-tree, with the
--                  values that an index has for an object; the B-tree's replies are an argument
--     Spec         fromIndexObject, setIndexSpec and validateIndex
--     Offsets      lowerBoundKey and addOffsetToCache, the cache of the offsets of a query's objects
--   Owner      src/partition/jsondbowner.cpp: isAllowed; in Rules setAllowedObjects, and
--              in Capabilities setCapabilities.
--   Stream     src/jsonstream/jsonstream.cpp: send, deviceBytesWritten and, in Reading,
--              deviceReadyRead, with the replies of the device as arguments.
--   Partition  what a partition stores, of src/partition/jsondbpartition.cpp and
--              jsondbobjecttable.cpp: the table of objects and those of the views, by their types.
--     Update       updateObjects: check_object are its checks, prepare_write the update by the mode
--                  and the checks of the result, store the changes of the tables
--     Changes      commit, abort and changesSince of jsondbobjecttable.cpp: what a state stores of its
--                  changes, the cache of changes, and how they are collected and split by types
--     Query        doIndexQuery, with resultObject of jsondbindexquery.cpp; Query/Compile is
--                  compileIndexQuery, given the indexes of the tables by their names
--   Schema     the validation of objects by schemas, of src/partition.
--     Handle       QJsonObjectTypes::Value of jsondbobjecttypes_impl_p.h
--     Keyword      the hash and the switch of createCheckPoint, of jsondbcheckpoints_p.h
--     Types        CheckType, whose types are the bits of a mask
--     Format       CheckFormat
--     Compile      the checks as data, and their constructors, which load other schemas
--     Check        check and doCheck, with the error of the service and m_requiredCount as the state
--     Required     the required checks of a schema and of what a value reaches of them
--     Manager      JsonDbSchemaManager
--   Client     src/client/qjsondbmodelcache_p.cpp: Cache has the pages of a model's objects, and their
--              operations in Cache/Operations and Cache/Chunks.
--   HBtree     src/hbtree, of which OrderedList is orderedlist_p.h. Qt's binary searches are arguments.
--   The children of these modules hold the proofs, and the modules named Tests the examples.
--
-- State is passed on: an operation that changes its object gives the changed object with what it
-- returns, and one that changes the tokenizer or the cache gives the new one. Numbers are
-- naturals, as no update count or position is negative; that a count is an int is a condition
-- where it matters (that the next count after INT_MAX overflows in computeVersion is not modelled).
-- The loops over arrays are recursion on the array. The loop of getNextToken
-- runs on fuel: each round takes a unit of the input, so one more than its length is enough. So do
-- the loops of the parser, as each round takes a token, and the loop of deviceReadyRead, as each
-- takes a document, and the loop of doIndexQuery, as each takes an entry; an action of the parser that ran out of fuel would give none.
-- Schemas are loaded by the compilation of other schemas: the fuel of the schema manager is how deep
-- that goes, so the longest chain of references is enough, and none says that it was not.
--
-- The schemas, indexes and views that the objects of built-in types define are a parameter of
-- Partition: a type of their states, what the checks say of an object in a state, and how a write
-- changes it. A write of an object takes with it the results of createUuid and of the B-tree's put.
--
-- Not modelled: the sorting of results, which Qt does, a partition's transactions and its files,
-- the B-tree, the cursor of a query by uuid, the bytes of the entries of a state, the caches of a
-- schema's values, views, notifications, the daemon, the client library but for the cache of its
-- models, and the QML imports; what the code logs and asserts; that a value of a double is a
-- number (doubles are their bits, and comparing them is a parameter).
pub mod Prelude
pub mod Qt
pub mod Strings
pub mod Object
pub mod Query
pub mod Owner
pub mod Index
pub mod Schema
pub mod Stream
pub mod HBtree
pub mod Partition
pub mod Client
