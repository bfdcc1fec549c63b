-- ===== src/Thread/Welcome.antt =====
-- The page of ServerThread::run for a path that no other handler takes.
use kueued.Prelude.{Text, lit, List, [], ◌∷◌}
use kueued.Xml.Markup.{concat}

unfoldable welcome_lines : List Text
welcome_lines =
    lit "Welcome to kueued\n\n"
    ∷ lit "Usage:\n\n"
    ∷ lit
        "  * http://kueue.hwlab.suse.de:8080/qmon\n    Get a list of all SRs in all pseudo queues\n\n"
    ∷ lit
        "  * http://kueue.hwlab.suse.de:8080/qmon/$QUEUE-NAME\n    Get a list of all SRs in $QUEUE-NAME\n\n"
    ∷ lit "    This is the qmon xml output.\n"
    ∷ lit "\n"
    ∷ lit
        "    Please note that not all fields are available for each SR, if they are not, they aren't shown at all.\n"
    ∷ lit "\n"
    ∷ lit "    <sr>\n"
    ∷ lit "      <id>SR number</id>\n"
    ∷ lit "      <queue>Queue</queue>\n"
    ∷ lit "      <bomgarQ>Bomgar Queue (if in chat)</bomgarQ>\n"
    ∷ lit "      <srtype>sr/cr</srtype>\n"
    ∷ lit "      <creator>Only for CRs: who created it?</creator>\n"
    ∷ lit "      <customer>\n"
    ∷ lit "        <account>Company name</account>\n"
    ∷ lit "        <firstname>Customer's first name</firstname>\n"
    ∷ lit "        <lastname>Customer's last name</lastname>\n"
    ∷ lit "        <title>Customer's title (ie. job)</title>\n"
    ∷ lit "        <email>Customer's email</email>\n"
    ∷ lit "        <phone>Customer's phone number</phone>\n"
    ∷ lit "        <onsitephone>Customer's onsite phone number</onsitephone>\n"
    ∷ lit "        <lang>Customer's preferred language</lang>\n"
    ∷ lit "      </customer>\n"
    ∷ lit "      <severity>SR severity</severity>\n"
    ∷ lit "      <status>Current status</status>\n"
    ∷ lit "      <bdesc>Brief description</bdesc>\n"
    ∷ lit "      <ddesc>Detailed description</ddesc>\n"
    ∷ lit "      <geo>Geo</geo>\n"
    ∷ lit "      <hours>Support hours</hours>\n"
    ∷ lit "      <source>How was the SR opened (web, phone..)</source>\n"
    ∷ lit "      <support_program>Customer's contract</support_program>\n"
    ∷ lit
        "      <support_program_long>A slightly more detailed version of the above</support_program_long>\n"
    ∷ lit "      <routing_product>Routing product</routing_product>\n"
    ∷ lit
        "      <support_group_routing>What group it is routed to internally</support_group_routing>\n"
    ∷ lit "      <int_type>Internal type</int_type>\n"
    ∷ lit "      <subtype>Subtype</subtype>\n"
    ∷ lit "      <servce_level>Some number indicating something</service_level>\n"
    ∷ lit "      <category>SR category (Adv/Knowledge)</category>\n"
    ∷ lit "      <respond_via>How the customer would like to be contacted</respond_via>\n"
    ∷ lit "      <age>SR age in seconds</age>\n"
    ∷ lit "      <lastupdate>Time to last update in seconds</lastupdate>\n"
    ∷ lit "      <timeinQ>Time in the current queue in seconds</timeinQ>\n"
    ∷ lit "      <sla>SLA left in seconds</sla>\n"
    ∷ lit "      <highvalue>Is the customer considered high value?</highvalue>\n"
    ∷ lit "      <critsit>Is there a critsit going on with the customer?</critsit>\n"
    ∷ lit "    </sr>   \n\n"
    ∷ lit
        "  * http://kueue.hwlab.suse.de:8080/bug/$SRNR\n    Get the bugreport for $SRNR (if any)\n\n"
    ∷ lit "Stay tuned for more features!\n"
    ∷ []

unfoldable pub welcome_page : Text
unfolding welcome_lines
welcome_page = concat welcome_lines
