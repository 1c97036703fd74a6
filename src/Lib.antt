-- ===== src/Lib.antt =====
-- A model of the userclouds authorization SDK, with the theorems that make its core correct.
--
-- Parts of the program and the files that model them
--   infra/cache: a cache that several clients share. A client takes a sentinel at a key before it
--     fetches from the server, and stores what it fetched only if its sentinel is still there.
--     Cache/Sentinel         constants.go, types.go, writethrough_sentinel_manager.go: the texts of
--                            sentinels and tombstones, and what may replace what
--     Cache/Store            what the provider uses of github.com/patrickmn/go-cache: an interface
--                            GoCache of a map with expiry, whose laws are its documented behaviour
--     Cache/InMemory/...     inmemory_provider.go: Base (keys, loops over keys), Locks
--                            (WriteSentinel, ReleaseSentinel), Values (SetValue, GetValue, GetValues,
--                            DeleteValue), Dependencies (AddDependency, ClearDependencies, Flush)
--     Cache/Provider         api.go: the interface Provider, and the in-memory provider as one
--     Cache/Manager/...      api.go: the keys of an item; Locks (take and release), Loads (of items and
--                            slices, with their validation), Saves (of items and collections);
--                            Methods: methods.go (CreateItem, GetItem)
--     Cache/<others>         proofs, named for what they are about
--   infra/pagination: the paginator of a list request.
--     Pagination/Filter/...  filter_query.go, filter_parser.go: Operators, Nodes (the tree, as a heap
--                            of nodes with parents and children), Leaf (the regular expression of a
--                            leaf, and the form of a key), Parser; proofs in Heaps, Rounds, Total
--     Pagination/Types       types.go, const.go, response.go
--     Pagination/Options     options.go: options as data, run one after the other
--     Pagination/Pager       pager.go: defaults, sort keys, cursors, Validate, ApplyOptions
--     Pagination/Query       query.go: from the parameters of a request, and to them
--     proofs in SortKeys, Cursors, Accepted, Requests
--   authz: the client of the authorization service.
--     Authz/KeyNames         cache_name_provider.go: GetKeyName
--     Authz/Items            cache_name_provider.go: the keys of each item, which the cache locks
--     Authz/Models           models.go, the generated validations, BaseModel of infra/ucdb: the types,
--                            what is valid, and equality that ignores the ID
--     Authz/Client/...       client.go over interfaces for the cache and for HTTP: Types (the cached types
--                            as items, cache_ttl_provider.go), Creates, Gets (and deletes), Updates,
--                            Edges (FindEdge, ListEdgesBetweenObjects), Paths (CheckAttribute),
--                            Lists (ListObjectTypes, ListEdgeTypes, ListOrganizations), Pages (the lists of
--                            one page)
--     proofs in Apart, Equality, Identity, Searches, Endings, Listings and PathChecks
--   infra/uctypes/set: sets as maps.
--     Sets                   set.go; proofs in Elements and Algebra
--     Sets/Sorted            Items, and string_set.go; a sorter of package sort is a parameter, whose law is
--                            that it returns the same elements in order
--   idp: the models of the identity provider.
--     Idp/Constants          the constants of the string enumerations
--     Idp/Enums              the generated enumerations of idp, idp/policy and idp/userstore, each with the
--                            cases of its switches in MarshalText, UnmarshalText and Validate; proofs in
--                            RoundTrips
--     Idp/Resources          ResourceID of idp/userstore/types.go; proofs in Equivalence
--     Idp/Policies           idp/policy/models.go: validation and equality; proofs in Components
--     Idp/Accessors          idp/userstore/types.go: accessors, mutators, purposes, databases, object
--                            stores; proofs in Mutators
--   Prelude holds what they share: texts, package strings, int with strconv, lists. Checks holds
--   tests and the theorems at concrete inputs, over a cache that is an association list.
--
-- Correspondence
--   A string is a list of numbers: bytes of ASCII text in keys and sentinels, code points in filters,
--   where byte_length counts the bytes. A UUID is an argument, by its text. A method of the provider
--   runs under one mutex, so it is one step on the state of the cache; the theorems on several
--   clients are about sequences of such steps. Durations are numbers of seconds. An error of GetValues
--   drops the results before it, which the callers do not read. encoding/json on an item is a field of
--   its ItemType. The server is an action, which also carries what other clients do to the cache during
--   its call. A Go map is the list of its keys, in the order of one run, or of its pairs. A nil
--   pointer that is read, and fuel that ends, are outcomes of their own of the filter parser, and
--   theorems exclude them. A function in a field of a
--   paginator is an optional function. An option is data, and run_option returns it as the call
--   leaves it, since the closure of Filter keeps what it made. An int is unbounded, and Atoi refuses what
--   does not fit 64 bits.
--   An HTTP request is a function on the state that returns the response, a status or a failure; the
--   options of a call are given as they are applied. A key whose name asks for an index out of range is
--   the empty key, which no call of the client comes to. The errors of the actions of CreateItem and
--   GetItem are one. A SentinelType is one of its four constants: GenerateSentinel of another
--   text, which no caller hands to it, would be the empty sentinel. CreateItem without a manager is
--   create_item_unmanaged.
--
-- Fuel
--   parse_loop has one round more than the filter has characters: every round that succeeds moves the
--   index on. pages_of has any fuel, and is none where the fuel ends: the loop of
--   ListEdgesBetweenObjects need not end. list_pages ends with as much
--   fuel as the server has pages. find_ancestor has the length of the heap: a parent was made before
--   its child.
--   strings.Split has at most one piece more than the text has characters. A decimal number has at most
--   one digit more than its value.
--
-- Not modelled
--   The Redis provider, whose transactions a server decides, HTTP, JSON, tokens, logging and tracing,
--   the options of the authz client, its methods that only send a request, and the clients of the
--   other services. Filters that are not valid UTF-8. The lexer and parser of selectors are generated
--   tables.
mod Prelude
pub mod Cache
pub mod Pagination
pub mod Authz
pub mod Sets
pub mod Idp
mod Checks
