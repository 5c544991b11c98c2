-- ===== src/Lib.antt =====
-- teilpunkt: the web frontend of the file server, the scripts of frontend/js, and of the server its
-- users and sessions, the time-based codes of a login, the cookies that it reads, and the virtual
-- file system of a storage endpoint.
--
-- The frontend has three pages with a script each (login, sign-up, dashboard) over shared scripts
-- for requests, hashing, elements and the theme. A handler of a page runs until its first `await`;
-- the rest runs when the promise settles. So a page is a state machine here: its state is a record
-- (the elements or what is rendered from them, the requests sent so far, the list of what is still
-- awaited), its events are what the user does and `settle i outcome`, which settles the promise
-- that the task at position i waits for. Tasks may settle in any order, and a list of events is any
-- interleaving. `step` is one event, `run` a list of them, `load` the page after it was loaded.
--
-- Files and the code they are about:
--   Base       numbers, lists and JavaScript's strings (UTF-16 code units, trim, replace of \D)
--   Dom        the elements of a document, and setErrorAttached, clearError, elementSetText,
--              elementMakeInvisible, validateUsername and validatePassword of frontend/js/util.js
--   Crypto     frontend/js/crypto.js; libsodium is the record Sodium
--   Backend    frontend/js/backend.js and fetchWithErrorHandling of frontend/js/util.js; an async
--              function is a request and a result from the outcome of the fetch (`x_request`,
--              `x_result`). Backend/Filename: the name of a downloaded file;
--              Backend/Answers: what an answer says
--   Login      frontend/js/login.js (State, Form, Entering, Codes, Flow)
--   Qr         showQRCode of frontend/js/util.js; the generator is the parameter Encoder
--   Icons      frontend/js/icons.js, the texts as they are
--   Markup     trees of elements, as `createElement`, `textContent` and `innerHTML` build them
--   Theme      frontend/js/theme-switcher.js
--   Cookies    redirectDashBoardLoggedIn of frontend/js/util.js
--   Signup     frontend/js/signup.js (State, Form, Registering, Flow, Twice)
--   Dashboard  frontend/js/dashboard.js: State, Render (what is rendered), Clicks (the handlers up
--              to their first `await`), Dashboard (the rest of the handlers and `step`), Markup (the
--              elements that are built from the state). Proofs: Navigation and Answers are about
--              one event, Waiting and Targets about a request and what happens until its answer,
--              Menu, Rooted and Phases about all runs, Browsing and Consistency
--              about runs of lookups with a server that answers in order, Races about what happens
--              when the user is faster than the server
--   Endpoints  GetHeader and GetCookie of src/server/Endpoints.cpp (Reading, Lookup)
--   Base32     Base32Encode and Base32Decode of src/util/Strings.cpp, over bytes as eight bits
--   SessionStorage  src/auth/SessionStorage.cpp, and what it uses of src/datastructures/SecureList.h
--              (Erasing, Access, Adding, Bounds)
--   Totp       getTOTPCode, generateTOTPKey and verifyTOTP of src/crypto/CryptoContext.cpp; libsodium's
--              HMAC is the parameter Hmac (Rfc: the codes of RFC 6238)
--   Users      src/auth/UserStorage.cpp over the record Sodium for the hashing of passwords (Counts,
--              Login)
--   Authenticator  src/auth/Authenticator.cpp: users and sessions together (Login, Removal, Order,
--              Renaming)
--   Vfs        src/storage/vfs and src/common/FileID: the files, the directories and their
--              identifiers. Directory: the operations of VirtualDirectory.cpp (Sizes); Search: the
--              searches of VirtualFilesystem.cpp (Tree: what a pointer points to; Outcome: how a
--              search ends; Skeleton: what it reads); Lookup and FindDir: what they find
--   Storage    src/storage/StorageEndpoint.cpp, with userCanAction of src/uac/UserAccessControl.cpp
--              and IsValidFilename. Targets, Listing, Deleting and Removing are about single
--              requests, Commands, Numbering and Names about runs of them
--   EventLimiter  allowRequest of src/monitoring/EventLimiter.cpp (Rate: the tokens of a range; Runs:
--              how many requests are allowed; Ranges: which addresses share a limit)
-- A directory of the server holds its files and its directories by value, so the model is a tree,
-- and a pointer into it is the list of places on the way from the root. The operations of a locked
-- object run one after another: an operation is a function from the state to the state and a
-- status, what it reads of the clock or the random generator is an argument, and what it writes
-- through a reference is an Option. An operation that could wait or search for ever returns an
-- Option, and that it does return is a theorem.
-- Interfaces: Authenticator uses Users and SessionStorage, Users uses Totp, and Totp Base32;
-- Storage uses Vfs, and its access control is a record. Login and Signup use Dom for their
-- documents, Backend for requests and Crypto for passwords; Dashboard uses Backend, Icons and
-- Markup; Signup uses Qr; the proofs of Endpoints use the cookies of Cookies/Finding.
--
-- Names follow the source in snake case: handlePasswordLogin is `handle_password_login`,
-- navigationStack is the field `navigation_stack`. Numbers are natural numbers; where
-- the source computes below zero, at the border of the QR code and with the tokens of the limiter,
-- they are the integers of Base/Int.
-- The loops of the frontend need no fuel: all run over lists or a known number of rounds. The loop
-- of GetCookie runs for a number of rounds that is given. SecureList::erase_if runs for as many
-- rounds as the list has elements, and each round leaves one element less to look at. A search of
-- the virtual file system has a round for each directory of the tree: it looks at each one once.
--
-- Not modelled: frontend/js/qrcodegen.js and frontend/js/libsodium.js, copies of other projects'
-- libraries; of the server the HTTP endpoints, transactions and files on disk, the table of
-- endpoints, tasks and events; the lock of another thread; fileDeleteAll and dirCanHoldSize, which
-- nothing calls and which have no defined behaviour; the log; style sheets; focus and the messages
-- on the console, which nothing reads.
-- A document is taken to have the elements that its page declares: a theorem names those it needs.
pub mod Base
pub mod Dom
pub mod Crypto
pub mod Authenticator
pub mod Backend
pub mod Login
pub mod Qr
pub mod Icons
pub mod Markup
pub mod Theme
pub mod Cookies
pub mod Signup
pub mod Dashboard
pub mod Endpoints
pub mod EventLimiter
pub mod Base32
pub mod SessionStorage
pub mod Storage
pub mod Totp
pub mod Users
pub mod Vfs
