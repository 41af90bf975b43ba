-- ===== src/Lib.antt =====
-- cppgraphqlgen: a GraphQL service library for C++.
--
-- The program is a library. `response::Value` is the value of every argument and every result;
-- `response::IdType` is the identifier in it, which holds bytes or text and moves between the two
-- through Base64. JSON is written by a `response::Writer` that hands its calls to RapidJSON, and read
-- by a handler that RapidJSON calls back. `service` resolves requests with these values and reports
-- errors in them, and `client` takes the responses apart again. Names are looked up in flat sorted
-- maps.
--
-- Files, each with the code that it models:
--   Base            shared tests, lists, text, integers, doubles, outcomes and std::equal_range
--   Base64          src/Base64.cpp, include/graphqlservice/internal/Base64.h: fromBase64 and toBase64
--     Validate        validateBase64
--     Compare         compareBase64, what it is to agree with in
--                     Compare/Reference, and where it is undefined in Compare/RunsPast
--     RoundTrip, Canonical, Segments, Alphabet   proofs of the codec
--   SortedMap       include/graphqlservice/internal/SortedMap.h
--     History         the finite map that a sequence of calls describes
--     Lookup, Sets, ShorterOrLess   find and at, sorted_set, the order of string_view keys
--   IdType          response::IdType in src/GraphQLResponse.cpp
--   Response        response::Value in src/GraphQLResponse.cpp and
--                   include/graphqlservice/GraphQLResponse.h: the variant
--     Access, Modify  get, size, operator[](size_t); set, release, emplace_back, reserve
--     SetGet          get after set
--     MapIndex        find and operator[](std::string_view), and the invariant of a map
--     Copy            the copy constructor
--     Equality        operator==
--     Writer          Writer::write
--   Json            src/JSONResponse.cpp: StringWriter, ResponseHandler, toJSON, parseJSON
--     Meaning         what a value reads as after it went through JSON
--     Machine         the handler run on the calls of the writer
--   Service/Errors  src/GraphQLService.cpp: error paths, error values, the document of a response
--     ErrorPaths      the order of an error path
--   Service/Directives   DirectiveVisitor::shouldSkip in src/GraphQLService.cpp
--     SkipInclude, SkipDecision   when it decides, and what
--   Service/Literals   ValueVisitor and DirectiveVisitor::visit in src/GraphQLService.cpp
--     Evaluated       the value that a literal stands for
--   Subscriptions   the subscriptions of Request in src/GraphQLService.cpp: `_subscriptions`,
--                   `_listeners` and `_nextKey`, addSubscription and removeSubscription
--     Collect         collectRegistrations, and in Collect/Selected what it is to select
--     Requests, Deliver   subscribe and unsubscribe; deliver
--     Keys, Invariant, Undo   the two maps agree; taking out what was registered
--     Subscribing, Undisturbed, Delivered   what the three calls leave and what they deliver
--   Requests        Request::validate, findOperationDefinition and resolve in src/GraphQLService.cpp
--     Operations, Answered   which operation runs, and what the client reads of it
--   Validation      src/Validation.cpp, include/Validation.h: types and errors
--     Values          argument values, and what schema and operation say about them
--     VariableType    validateVariableType, with the specification in VariableType/Decision
--     InputValue      validateInputValue
--     ArgumentVisitor ValidateArgumentValueVisitor, with its errors in ArgumentVisitor/Duplicates
--     Scope           matchesScopedType, getFieldType
--   Client          src/GraphQLClient.cpp: parseServiceResponse
--     Modifiers, ModifierRoundTrip   ModifiedVariable and ModifiedResponse, with
--                   include/graphqlservice/GraphQLClient.h
--     ServiceErrors, Documents   the client on what the service writes
--   WorkerQueue     await_worker_queue in src/GraphQLService.cpp: its steps under the mutex and its
--                   notifications of the condition variable
--     Order, Waking, Drain, Join   what the worker resumes, that it is woken, and when it stops
-- The files named Examples and Samples hold concrete runs.
--
-- The state of an object is a value that an operation takes and returns. An exception is the case
-- `throw` of Outcome, with the message of the source and its location where it has one;
-- std::terminate of a noexcept function is `throw terminated`, and undefined behaviour that is not
-- ruled out is `throw undefined_behaviour`. A moved-from object is not looked at again. A byte or
-- a character is a natural number, `int` is an integer that the hypotheses bound by 32 bits where
-- it matters, and a double is its 64-bit pattern. A vector of members or elements is built by
-- pushing at its end. A std::shared_ptr<const Value> is the value that it points at, since nothing
-- writes through it. Validation keeps its errors as a list that grows at its end, and Request its
-- two maps and its next key as a record. The syntax tree is taken as the parts that a visitor
-- reads. Loops are recursion on the text, the vector or the calls, without fuel; only run_worker
-- counts steps, and enough_steps is a count that is proved to suffice. The worker queue has one
-- step for each use of its mutex and one for each notification, which follows when the mutex is
-- released; a thread that has yet to notify is counted, and a waiting worker goes on only where it
-- is woken.
--
-- Not modelled: the capacity that reserve asks for, which changes no result; iterators that are kept
-- across a change; the order of memory operations. The grammar stands on PEGTL, which is not in the
-- repository. RapidJSON is not part of it either: its writer and its reader are parameters, and one
-- named hypothesis, ReadsBack, says that it reads back what it was told to write. What a
-- resolver resolves to, and what other threads do to a registry while the mutex is not held, are
-- parameters too, as is std::atof. The selection and the resolution of objects in
-- src/GraphQLService.cpp, the visitors of operations, selections and directives in src/Validation.cpp,
-- src/Schema.cpp, src/Introspection.cpp and the generators are not modelled.
pub mod Base
pub mod Base64
pub mod SortedMap
pub mod IdType
pub mod Response
pub mod Json
pub mod Client
pub mod Service
pub mod Subscriptions
pub mod Requests
pub mod Validation
pub mod WorkerQueue
